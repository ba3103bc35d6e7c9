-- ===== src/Lib.antt =====
-- Bitlab, a self-hosted streaming hub: an HTTP addon server over a BitTorrent client.
--
-- The modules follow the parts of the program.
-- Prelude: shared names; Go's strings as byte lists (Text), int and int64 with their wrap-around
--   (Int), maps as association lists in the order of a `range` (Assoc), facts about members;
--   `strings.TrimSpace` (Trim), the searches of `strings` (Search), decimal numbers (Decimal, Digits)
--   and texts without a given byte (Lines).
-- Util (util.go): Infohash has `validInfohash`.
-- Cache (cache.go): Plan has the entries and `planCache` with its two loops; Candidates reads the
--   second loop as a walk along the candidates; Policy, Pressure and Account have what it promises.
--   Scan has `scanCache` over the paths that a walk visits, Media what it returns; Sweep and Run have
--   `cacheOwners`, `peekActivity` and `sweepCache`, Owned whose the entries
--   are; Removed and Spared what a sweep removes and
--   leaves.
-- Engine (engine.go): State has the activity table and the loaded torrents, Evict `evictOldest`,
--   Table, Rounds and Eviction its properties; Ensure has `ensure` and `magnetURI` (indexers.go),
--   Steps, Client and Loading its properties; Reader has `sizedReader`, Range its properties.
--   Choose has `chooseFile`, `fileSignal` and `chooseFileForEpisode`, Largest and Chosen what they
--   return; Title has `chooseFileForTitle` with `hintWords` (relevance.go), Titled what it returns.
--   RangeHeader has `rangeStart` and `sniffContainer`, RangeRead the headers that it reads. Reap has
--   `reapIdle`, Reaped and ReapPass its outcome.
-- Store (store.go): Keys has the keys table with each SQL statement as a function on its rows; Rows,
--   Resolve and History have what KeyByToken answers after each of them. Sessions has the sessions
--   and the settings tables, SessionRows and SignedIn what GetSession answers, Caches the two caches.
-- Search (indexers.go): Merge has the merge, the ranking and the cut of `searchAll`, with `sortResults`
--   and `dropDead`; Fanout has `queriesFor` and `searchAll` itself; Merged, Ranked and Answer what it
--   answers; Cached has `searchIndexer`, Repeated its property.
-- Addon (addon.go): Episodes has `remapEpisode`, the cache of episode lists and `parseMediaID`,
--   Remapped their properties, Auth `authKey`.
-- Aliases (anilist.go): Pick has `pickAliases` and `isLatin`, Picked their property; the tables of
--   Go's `unicode` are parameters, in `Unicode`.
-- Middleware (main.go): Origin has `sameOrigin`, `hostAllowed` and `hostsEqual`, Gate `middleware`,
--   Own and Passed what it lets through.
-- NetGuard (netguard.go): Dial has `privateAddress` and the dialer of `guardedDialContext`, Guarded
--   where it connects.
-- WireGuard (wireguard.go): Config has the configuration, `parseKey` and `resolveEndpoint`; Parse has
--   `ParseWireGuardConfig` as a fold over the lines; Keys, Sound, Kept, Loop and Usable have what it
--   gives. Uapi has `ToUAPI` and a reader of its text, Read their round trip, Load
--   `loadWireGuardConf`.
-- PortMux (portmux.go): Sniff has `sniff` on the bytes of a connection, `dispatch` with the replay of
--   the bytes read, and the pause of `Serve`; Replay, Methods and Routing have what they promise.
-- Security (security.go): Totp has `totpCode` and `verifyTOTPStep`,
--   SecondFactor `checkSecondFactor` with its codecs as parameters; OneUse and Recovery its
--   properties.
-- Admin (admin.go): Window has the throttle of failed sign-ins, Throttle its properties; Login has
--   `handleLogin` up to the cookie and the answer's body, SignIn whom it signs in.
--
-- Conventions. A time is a number of nanoseconds, and a call takes the time at which it runs. The
-- sort of Go's `sort.Slice` is a parameter with its documented laws. The torrent client is the list
-- of its torrents, and `AddMagnet` and `url.QueryEscape` are parameters. Each call runs to its end
-- before the next one: the interleavings of two requests are not modelled.
-- A table of the database is the list of its rows; a statement is a function on it and is answered,
-- but for the write of a setting, which may fail. The counters of the keys table are exact integers.
-- The reader below `sizedReader` and the codecs of the second factor (base32, HMAC, SHA-256, JSON,
-- strconv, ToUpper) are parameters, with the documented laws that a theorem uses as its hypotheses.
-- What the searches of `searchAll` have sent when its wait ends is a function of the searches
-- launched; the comparison of two scores, which are floats, is a parameter, and so is the judgement
-- of `episodeSignal`. The predicates of `net.IP`, the resolver and the dialer are in `Net`, and
-- `strings.EqualFold` and `url.Parse` in `Web`.
-- What wireguard.go takes from `net`, `netip`, `encoding/base64` and `os` is in the records `Resolver`
-- and `Files`; an address is its text. `fileSignal` takes the judgement of `episodeSignal` and the
-- submatch of its regular expression as parameters. The paths that `filepath.WalkDir` visits are a
-- list. A path separator is a slash. `ToLower` is exact where its
-- result is compared with ASCII text, and a parameter in Search and Aliases.
-- A connection is the list of the bytes that arrive before it ends or its deadline passes.
-- Fuel: `TrimSpace` runs on the length of the text, of which each round takes a byte or more. The
-- rounds of `evictOldest` run on one more than the number of activity entries, and each round but
-- the last deletes one.
--
-- Not modelled: the network, the file system, SQLite, the torrent client itself, JSON, the log.
pub mod Prelude
pub mod Util
pub mod Cache
pub mod Engine
pub mod WireGuard
pub mod Search
pub mod Addon
pub mod NetGuard
pub mod Middleware
pub mod Store
pub mod PortMux
pub mod Security
pub mod Admin
pub mod Aliases
