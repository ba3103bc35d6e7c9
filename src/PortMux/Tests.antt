-- ===== src/PortMux/Tests.antt =====
-- The shared port of portmux.go on single connections.
use bitlab.Prelude.{◌≡◌, refl, true, some, bytes, bytes_eq, has_prefix, any}
use bitlab.PortMux.Sniff.{
  http, torrent, handed, dispatch, sniff, http_methods, match_methods, hand_over, is_method,
  is_possible,
}
use bitlab.PortMux.Replay.{dispatch_replays}
use bitlab.PortMux.Routing.{goes_to_web, sniff_http}

-- A request goes to the web side, where it can be taken.
request_is_handed :
    dispatch (λ side. true) (bytes "GET / HTTP/1.1") ≡ handed http (bytes "GET / HTTP/1.1")
unfolding dispatch sniff match_methods hand_over is_method is_possible bytes_eq has_prefix
request_is_handed = refl

-- A word that only begins as a method does goes to the torrent client, after its fourth byte.
word_is_torrent : sniff (bytes "POSSIBLE") ≡ some (torrent, bytes "POSS", bytes "IBLE")
unfolding sniff match_methods is_method is_possible bytes_eq has_prefix
word_is_torrent = refl

dispatch_replays_example : bytes "GET / HTTP/1.1" ≡ bytes "GET / HTTP/1.1"
dispatch_replays_example =
    dispatch_replays (λ side. true) (bytes "GET / HTTP/1.1") http (bytes "GET / HTTP/1.1")
      request_is_handed

sniff_http_example :
    goes_to_web (sniff (bytes "HEAD /x")) ≡ any (has_prefix (bytes "HEAD /x")) http_methods
sniff_http_example = sniff_http (bytes "HEAD /x")
