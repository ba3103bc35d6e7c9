-- ===== src/PortMux/Sniff.antt =====
-- portmux.go: `sniff` and `dispatch`. A connection is the list of the bytes that arrive before it
-- ends or the read deadline passes: a read of an empty list fails.
use bitlab.Prelude.{
  ℕ, zero, suc, ◌*◌, ◌==◌, Bool, ◌||◌, List, [], ◌∷◌, ◌++◌, Option, none, some, Bytes, bytes,
  bytes_eq, has_prefix, if◌then◌else◌, length, leb, ltb, not, any,
}

-- The two listeners.
pub data Side : Type 0 where
  http : Side
  torrent : Side

-- `httpMethods`.
abbrev pub http_methods : List Bytes
http_methods =
    bytes "GET "
    ∷ bytes "HEAD "
    ∷ bytes "POST "
    ∷ bytes "PUT "
    ∷ bytes "PATCH "
    ∷ bytes "DELETE "
    ∷ bytes "OPTIONS "
    ∷ bytes "TRACE "
    ∷ bytes "CONNECT "
    ∷ bytes "PRI "
    ∷ []

-- `s == meth` for one of the methods.
unfoldable pub is_method : Bytes → Bool
unfolding bytes_eq
is_method s = any (bytes_eq s) http_methods

-- `strings.HasPrefix(meth, s)` for one of the methods.
unfoldable pub is_possible : Bytes → Bool
unfolding has_prefix
is_possible s = any (λ meth. has_prefix meth s) http_methods

-- What `sniff` answers, with the bytes that it has not read.
abbrev pub Sniffed : Type 0
Sniffed = Option (Side × Bytes × Bytes)

-- The loop over the methods.
unfoldable pub match_methods : Bytes → Bytes → Sniffed
unfolding is_method is_possible
match_methods buf [] =
    if is_method buf
    then some (http, buf, [])
    else (if not (is_possible buf) || leb 8 (length buf) then some (torrent, buf, []) else none)
match_methods buf (b ∷ rest) =
    let read_on = match_methods (buf ++ b ∷ []) rest in
    if is_method buf
    then some (http, buf, b ∷ rest)
    else (if not (is_possible buf) || leb 8 (length buf)
        then some (torrent, buf, b ∷ rest)
        else read_on)

-- The loop that reads `n` more bytes of a handshake.
unfoldable pub read_handshake : ℕ → Bytes → Bytes → Sniffed
read_handshake zero buf rest = some (torrent, buf, rest)
read_handshake (suc n) buf [] = none
read_handshake (suc n) buf (b ∷ rest) = read_handshake n (buf ++ b ∷ []) rest

-- `len(btProtocolString)`.
abbrev pub protocol_length : ℕ
protocol_length = length (bytes "BitTorrent protocol")

-- `sniff`.
unfoldable pub sniff : Bytes → Sniffed
unfolding match_methods read_handshake
sniff [] = none
sniff (b ∷ rest) =
    if b == protocol_length
    then read_handshake protocol_length (b ∷ []) rest
    else match_methods (b ∷ []) rest

-- What becomes of a connection: closed, or handed to a side that reads the given bytes.
pub data Dispatched : Type 0 where
  closed : Dispatched
  handed : Side → Bytes → Dispatched

-- The `select` of `dispatch`, with the replay of `prefixConn`. `takes` tells which case runs: the
-- listener takes the connection, or it is done.
unfoldable pub hand_over : (Side → Bool) → Sniffed → Dispatched
hand_over takes none = closed
hand_over takes (some (side, prefix, rest)) =
    if takes side then handed side (prefix ++ rest) else closed

-- `dispatch`.
unfoldable pub dispatch : (Side → Bool) → Bytes → Dispatched
unfolding sniff hand_over
dispatch takes c = hand_over takes (sniff c)

-- The pause of `Serve` after a failed accept, in nanoseconds.
unfoldable pub next_backoff : ℕ → ℕ
next_backoff backoff =
    if backoff == 0 then 5_000_000 else (if ltb backoff 1_000_000_000 then backoff * 2 else backoff)

-- The pauses of a run of failed accepts, from a fresh start.
unfoldable pub backoff_after : ℕ → ℕ
unfolding next_backoff
backoff_after zero = 0
backoff_after (suc n) = next_backoff (backoff_after n)
