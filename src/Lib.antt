-- ===== src/Lib.antt =====
-- smugbox, a photo gallery for a Lightroom plugin (the Go server in backend/).
--
-- The plugin publishes albums, folders and photos over HTTP with an API key. Visitors look at albums
-- and their photos; an album may be protected by a password, and a signed cookie remembers which
-- albums a visitor has unlocked, and at which version of the password. The tables lie in SQLite, the
-- photo files in a directory.
--
-- The files of this library and the code that each is about:
-- Prelude, Exec   names of the libraries, lists and texts (a text is the list of its bytes; Space is
--                 strings.TrimSpace), and functions that change a state and may fail. Exec/Keeps,
--                 Exec/Ensures, Exec/Yields, Exec/Reaches and Exec/Returns carry invariants, facts on
--                 results and states, and the absence of errors through chains of them.
-- Slug            backend/internal/api/slug.go, and validSlug of access.go: slugify, slugSuffix,
--                 withUniqueSlug, here slugify, slug_suffix, with_unique_slug.
-- Auth            backend/internal/auth: Session is cookie.go, RateLimit is ratelimit.go, and Base64
--                 the unpadded URL encoding of the cookie and of the API keys.
-- Db              backend/internal/db: a record for each row, Tables for the tables, and one function
--                 for each method of DB (Albums, Summary, Photos, Folders, Lists, Keys). Db/Consistent
--                 states the constraints of the migrations, Photos/Order is about SetPhotoOrder and
--                 Lists/Covered about the covers of folders.
-- Storage         backend/internal/storage/storage.go: the photo files as a map; Staging is the incoming
--                 directory, Walk the listing of the directories for the garbage collection.
-- Image           backend/internal/image: the sizes of the variants and Derive. Held and Derives are about
--                 the staged files that it leaves, Succeeds about when it does not fail.
-- Api             backend/internal/api: Api.Server is the server's state. Boot is the session secret and
--                 the limits set in server.go, Input the checks on bodies. Api/Publish is
--                 publish_auth.go (Auth), publish_albums.go (Albums, Updates, Order; Versions is about
--                 the password's version),
--                 publish_folders.go (Folders), publish_photos.go (Metadata, Upload, Target and
--                 Ingest; its file names are Api/Filename) and the routes of server.go (Routes).
--                 Api/Variants is the worker of variants.go: Commits, Places and Rows follow its loops
--                 and statements, Renders and Finishes `generate` as a whole, and Race is about rounds
--                 between the steps of a replacement. Api/Visitor is
--                 access.go (Access), unlock.go (Unlock), albums.go and photos.go (Pages; Files and Sending
--                 follow serveVariant, Asked, Guarded, Listed and Cover are about whole handlers),
--                 download.go (Download) and folders.go (Tree).
-- Admin           backend/cmd/smugbox/admin.go: Collect is gcTargets, and Commands the commands on keys,
--                 passwords and albums.
-- Tests           a small gallery, and the theorems at concrete inputs.
--
-- A handler is a function from the state to a reply or a value, and the next state; an early return is
-- a `throw` of the reply. A statement on the tables takes the next entry of the schedule `faults` of
-- the driver's failures, and a file operation that of the operating system, so that every error path of
-- a handler is reached by some state. A request runs to its end before the next begins, at one time of
-- the clock; only Api/Variants/Race takes a replacement apart, into its calls of the tables and the
-- store.
--
-- Bounds. `retry_slug` recurses on the retries left, ten as in the code. `find_free` runs on one round
-- more than there are names seen; its candidates differ, so that one of them is free. The recursive
-- statements of folders.go (`cascade`, `walk_up`, `subtree`) run on fuel, one round more than there are
-- folders. Each round of `cascade` with rows to drop removes a folder, so the fuel is enough. Where the
-- parents form a cycle the recursive queries of SQLite do not end, and `walk_up` and `subtree` stop.
--
-- Parameters (the records Env, Crypto and Vips): the multipart reader, encoding/json, libvips, uuid,
-- bcrypt, HMAC-SHA256, SHA-256, strings.ToLower, the JSON form of a session, the NFKD decomposition and
-- the table of combining marks; the directories that the operating system lists, and the terminal. What
-- a theorem needs of them is a hypothesis: that a session is read back from its JSON form, that it, the
-- signature and the random source are bytes, that lowering leaves a dash and the digits as they are, and
-- that libvips makes the variants that are wanted.
--
-- Not modelled: SQLite itself, the text form of times, the rounding of floats in the rate limiter (its
-- numbers are exact), logs, timeouts and HTTP headers other than the cookie, the tag and the caching;
-- the client's address, the lists that the admin command prints and its removal of files,
-- configuration and static files. Removing a staged file does not fail here, and the worker commits the
-- staged variants in one order, the last made first, where the source ranges over a map.
pub mod Prelude
pub mod Exec
pub mod Slug
pub mod Auth
pub mod Db
pub mod Storage
pub mod Image
pub mod Api
pub mod Admin
pub mod Tests
