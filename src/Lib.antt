-- ===== src/Lib.antt =====
-- GoEncode: a model of the media encoder, of the queue that runs it and of the rows that feed
-- it.
--
-- The program watches folders, keeps a table of jobs, and encodes one file per job with ffmpeg.
-- The watcher (internal/watcher) turns files that appear in a folder into jobs; the downloader
-- (internal/downloader) fetches files with yt-dlp and adds jobs for them. A worker
-- (internal/queue/worker.go) takes the first pending job, claims its row, copies the file to the
-- temporary directory, runs ffmpeg, checks the result and moves it to its place; the manager
-- (internal/queue/manager.go) holds what the workers share; the database layer (internal/db)
-- keeps the jobs, the settings, the reports, the watch folders and the downloads;
-- internal/encoder builds the command lines and decides what is skipped; internal/config says
-- how all of it is set up.
--
-- Files and the code they model:
-- - Prelude, Go: shared names, and the functions of Go's standard library that the code calls
--   (strings, strconv, fmt.Sscanf, path/filepath), on texts as lists of bytes; Go/Runes has the
--   loop over the runes of a text and the white space of Unicode, where the code meets them
--   (ShlexSplit, SanitizeFilename); elsewhere case and white space are those of ASCII.
-- - Db/Models: internal/db/models.go: EncodeSettings, ApplyDefaultsFor, OutputExt, Job,
--   JobReport, NewJob. Db/Rows: nullStr, encodeInsertArgs and applyEncodeNulls of
--   internal/db/queries.go; `reload` is a trip of the settings through the database. Db/Jobs:
--   the statements over the tables jobs and job_reports of that file: AddJob, GetPendingJobs,
--   ClaimJob, UpdateJobStatus, DeleteJob and so on, each one function on the state of the
--   tables.
-- - Db/Like and Db/Folders: the watch folders of internal/db/queries.go, the filter
--   pathPrefixFilter for the paths in a folder, PathUnderFolder, FolderContaining, and the
--   statements over the rows of a folder. Db/Downloads: the table download_jobs and its
--   statements.
-- - Config: internal/config/config.go: the file, the environment and the defaults.
-- - Watcher: internal/watcher/watcher.go. Files has shouldIgnoreFile, findWatchFolder and
--   checkSkip, Stable the wait of processFile, Timers the timers of time.AfterFunc and the maps
--   that they are kept in, State the state of Manager, Events the events, the timers and the
--   walks, Process the function processFile and ScanFolder, Reach the calls as the steps of a
--   relation.
-- - Downloader/Manager: internal/downloader/manager.go: processNext, runJob, enqueueEncode,
--   Cancel, Start and Stop. Downloader/Names: SanitizeFilename of internal/downloader/ytdlp.go.
--   Downloader/Cookies: internal/downloader/cookies.go, and cookieArgs and appendCookieArgs of
--   ytdlp.go. Downloader/Ytdlp: the function Download of ytdlp.go, from its arguments to the
--   file that it finds.
-- - Notify: the choice of events and destinations of internal/notify/notify.go.
-- - Encoder/Shlex, Encoder/Probe: ShlexSplit, FormatArgs, parseResolution of
--   internal/encoder/ffmpeg.go. Encoder/Video, Encoder/Audio: buildVideoArgs, buildAudioArgs,
--   shouldSkipVideo, shouldSkipAudio and their helpers.
-- - Queue/Schedule: parseClock, normalizeClock, inEncodeWindow of internal/queue/schedule.go.
--   Queue/Disk: internal/queue/disk.go, with int64 additions that wrap around. Queue/Manager:
--   the state of Manager and its methods, each a function on that state, since a lock makes each
--   one step; Life has Start, Stop, Cancel and scheduleLoop, which reads a new manager at each
--   tick.
-- - Queue/Worker: internal/queue/worker.go. State has the world of a worker (files, tables,
--   manager, events, notifications), the answers of the environment, and the step monad whose
--   `stop` is a return of the function. Copy is copyFile, Paths the paths that runEncoder
--   computes, Stages and Encode the statements of runEncoder in their order, Next is
--   processNextJob.
--
-- Below a module stand its theorems, in modules named for what they show, and its runs and
-- examples in a module Tests.
--
-- Parameters: what ffmpeg, ffprobe, yt-dlp, statfs, the file system's calls, the clock and the
-- database's success answer is a field of `Env`, of `FileSystems` or an argument. The LIKE of
-- the database is an argument `like` with the rules IsLike, up to a test `same` of the bytes
-- that it takes for the same, such as the two cases of a letter; match_like keeps the rules; the
-- parser of YAML is an argument too. Floating-point numbers appear only there: a duration is a
-- number of microseconds, the six decimals that ffprobe prints, and the scaled width is an
-- argument. ffmpeg writes to its output path only, and the file system changes by the worker's
-- own calls only, since each job has its own paths.
--
-- Loops are structural recursions over lists: copy_loop over the blocks of the source, the loops
-- over rows, lines and bytes. `itoa` counts with fuel: 20 digits, enough for every number of 64
-- bits, which the identifiers are. The wait for a stable file has 362 rounds, one more than its
-- deadline leaves time for. Calls of the watcher and of the download manager are single steps,
-- but a timer of the watcher takes three: it expires, its function deletes the entry of its path
-- under the mutex, and then sends the path or walks the directory. What two goroutines do in the
-- middle of one call is not interleaved, but for the statements over the downloads that run
-- during a download.
--
-- Not modelled: the probe of yt-dlp and the progress of its runs, the texts of notifications and
-- the requests that carry them, the web pages and the report queries; the SQL text and the
-- drivers; signals to processes and the progress that is read of ffmpeg's standard error.
pub mod Prelude
pub mod Go
pub mod Config
pub mod Db
pub mod Downloader
pub mod Encoder
pub mod Notify
pub mod Queue
pub mod Watcher
