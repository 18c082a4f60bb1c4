-- ===== src/Queue/Manager/Settings.antt =====
-- `SetWindow` and `SetPaused`: what is kept in the manager and in the database.
use goencode.Prelude.{
  ◌≡◌, refl, Bool, true, false, Text, text_eq, arith, is_empty, none, some, Bool-cases, inl, inr,
  Option-cases,
}
use goencode.Queue.Schedule.{normalize_clock}
use goencode.Queue.Manager.{
  Manager, ConfigError, set_config, store_window, set_window, send_trigger, load_schedule,
  one_empty,
}

one_empty-false : (a b : Text) → one_empty a b ≡ false → is_empty a ≡ is_empty b
unfolding one_empty
one_empty-false a b h = ground arith

-- What a window that was set looks like, in the manager and when it is loaded again.
abbrev pub IsStored : Text → Text → Manager → Type 0
IsStored start end m =
    (m.window_start ≡ start)
    × (m.window_end ≡ end)
    × ((load_schedule m).window_start ≡ start)
    × ((load_schedule m).window_end ≡ end)

store_window-IsStored :
    (ok_start ok_end : Bool) (start end : Text) (m : Manager)
    → (store_window ok_start ok_end start end m).0 ≡ none
    → IsStored start end (store_window ok_start ok_end start end m).1
unfolding store_window load_schedule set_config send_trigger text_eq
store_window-IsStored true true start end m ok = (refl, refl, refl, refl)
store_window-IsStored true false start end m ok = cc
store_window-IsStored false ok_end start end m ok = cc

store_window_failed :
    (ok_start ok_end : Bool) (start end : Text) (m : Manager) (e : ConfigError)
    → (store_window ok_start ok_end start end m).0 ≡ some e
    → ((store_window ok_start ok_end start end m).1.window_start ≡ m.window_start)
      × ((store_window ok_start ok_end start end m).1.window_end ≡ m.window_end)
unfolding store_window set_config
store_window_failed true true start end m e ok = cc
store_window_failed true false start end m e ok = (refl, refl)
store_window_failed false ok_end start end m e ok = (refl, refl)

-- Where `SetWindow` returns no error, both times are valid, both are blank or neither is, and their
-- normal forms are in the manager and in the database, from which a restart loads the same window.
pub set_window-load_schedule :
    (ok_start ok_end : Bool) (start end : Text) (m : Manager)
    → (set_window ok_start ok_end start end m).0 ≡ none
    → (s : Text) × (e : Text) × (normalize_clock start ≡ some s)
      × (normalize_clock end ≡ some e)
      × (is_empty s ≡ is_empty e)
      × IsStored s e (set_window ok_start ok_end start end m).1
unfolding set_window
set_window-load_schedule ok_start ok_end start end m ok =
    elim (Option-cases (normalize_clock start)) [
      | inl a ↦ let bad = rw (a, set_window) at ok in cc
      | inr (s, a) ↦ elim (Option-cases (normalize_clock end)) [
        | inl b ↦ let bad = rw (a, b, set_window) at ok in cc
        | inr (e, b) ↦ elim (Bool-cases (one_empty s e)) [
          | inl y ↦ let bad = rw (a, b, y, set_window) at ok in cc
          | inr n ↦ (
            s,
            e,
            a,
            b,
            one_empty-false s e n,
            rw (a, b, n, set_window)
                (store_window-IsStored ok_start ok_end s e m (rw (a, b, n, set_window) at ok)),
          )
        ]
      ]
    ]

-- Where `SetWindow` returns an error, the window of the manager is the one it was.
pub set_window_failed :
    (ok_start ok_end : Bool) (start end : Text) (m : Manager) (err : ConfigError)
    → (set_window ok_start ok_end start end m).0 ≡ some err
    → ((set_window ok_start ok_end start end m).1.window_start ≡ m.window_start)
      × ((set_window ok_start ok_end start end m).1.window_end ≡ m.window_end)
unfolding set_window
set_window_failed ok_start ok_end start end m err bad =
    elim (Option-cases (normalize_clock start)) [
      | inl a ↦ rw (a, set_window) (refl, refl)
      | inr (s, a) ↦ elim (Option-cases (normalize_clock end)) [
        | inl b ↦ rw (a, b, set_window) (refl, refl)
        | inr (e, b) ↦ elim (Bool-cases (one_empty s e)) [
          | inl y ↦ rw (a, b, y, set_window) (refl, refl)
          | inr n ↦
              rw (a, b, n, set_window)
                (store_window_failed ok_start ok_end s e m err (rw (a, b, n, set_window) at bad))
        ]
      ]
    ]
