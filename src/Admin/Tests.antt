-- ===== src/Admin/Tests.antt =====
-- The throttle of sign-ins (admin.go) on a small table.
use bitlab.Prelude.{[], ◌∷◌, Bytes, bytes}
use bitlab.Prelude.Int.{pos}
use bitlab.Admin.Window.{Hits}

abbrev table : Hits
table = (bytes "10.0.0.1", pos 1 ∷ pos 700_000_000_000 ∷ []) ∷ []

abbrev home : Bytes
home = bytes "10.0.0.1"

abbrev guest : Bytes
guest = bytes "10.0.0.2"
