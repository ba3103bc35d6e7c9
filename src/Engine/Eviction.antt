-- ===== src/Engine/Eviction.antt =====
-- `evictOldest` as a whole, by the rounds that it runs (engine.go).
use mathlib.Core.Path.{subst}
use bitlab.Prelude.{
  sym, ◌∙◌, suc, ◌≡◌, Bool, true, false, some, Bytes, length, arith, some_inj, All,
}
use bitlab.Prelude.Assoc.{lookup}
use bitlab.Engine.State.{Activity, Engine, is_busy}
use bitlab.Engine.Evict.{evict_oldest, IsTable}
use bitlab.Engine.Rounds.{Dropped, Ended, Run, evict_loop-Run}

-- `evictOldest` ends: the table loses an entry in every round but the last.
pub evict_oldest-total :
    (e : Engine) → IsTable e.act → (r : Bool × Engine) × (evict_oldest e ≡ some r)
unfolding evict_oldest
evict_oldest-total e h =
    let (r, ran, run) = evict_loop-Run (suc (length e.act)) e h (omega arith) in (r, ran)

pub evict_oldest-Run :
    (e : Engine) (r : Bool × Engine) → IsTable e.act → evict_oldest e ≡ some r → Run e r
unfolding evict_oldest
evict_oldest-Run e r h ran =
    let (r', ran', run) = evict_loop-Run (suc (length e.act)) e h (omega arith) in
    subst (Run e) (some_inj (sym ran' ∙ ran)) run

-- However `evictOldest` ends, an entry with a reader or with an add in flight stays as it is.
pub evict_oldest-spares :
    (e e' : Engine) (b : Bool) (ih : Bytes) (a : Activity)
    → IsTable e.act
    → evict_oldest e ≡ some (b, e')
    → lookup ih e.act ≡ some a
    → is_busy a ≡ true
    → lookup ih e'.act ≡ some a
evict_oldest-spares e e' b ih a h ran known busy =
    (evict_oldest-Run e (b, e') h ran).kept ih a known busy

-- Where `evictOldest` answers true, it has dropped one loaded torrent, whose entry had no reader
-- and no add in flight, and no idle entry that is left was used before that one.
pub evict_oldest-drops :
    (e e' : Engine) → IsTable e.act → evict_oldest e ≡ some (true, e') → Dropped e e'
unfolding Ended
evict_oldest-drops e e' h ran = (evict_oldest-Run e (true, e') h ran).ended

-- Where `evictOldest` answers false, no torrent was dropped, and every entry that is left has a
-- reader or an add in flight.
pub evict_oldest-refuses :
    (e e' : Engine)
    → IsTable e.act
    → evict_oldest e ≡ some (false, e')
    → (e'.client ≡ e.client) × All (λ (x : Bytes × Activity). is_busy x.1 ≡ true) e'.act
unfolding Ended
evict_oldest-refuses e e' h ran = (evict_oldest-Run e (false, e') h ran).ended

pub evict_oldest-IsTable :
    (e e' : Engine) (b : Bool) → IsTable e.act → evict_oldest e ≡ some (b, e') → IsTable e'.act
evict_oldest-IsTable e e' b h ran = (evict_oldest-Run e (b, e') h ran).table
