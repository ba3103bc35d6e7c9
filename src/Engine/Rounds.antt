-- ===== src/Engine/Rounds.antt =====
-- engine.go: the rounds of `evictOldest`, each of which deletes the entry that it picked, and what
-- they establish together.
use bitlab.Prelude.{
  ℕ, zero, suc, ◌<◌, ◌≡◌, ◌⊎◌, inl, inr, refl, Bool, true, false, [], some, Bytes, bytes_eq,
  bytes_eq_iff, length, arith, Bool-cases, Option-cases, In, All,
}
use bitlab.Prelude.Int.{ℤ, ◌≤ℤ◌}
use bitlab.Prelude.Members.{All-mono}
use bitlab.Prelude.Assoc.{Assoc, lookup, erase, lookup-erase}
use bitlab.Engine.State.{
  Activity, Torrent, Engine, find_torrent, drop_torrent, remove_lock, is_busy,
}
use bitlab.Engine.Evict.{
  find_oldest, no_oldest, evict_loop, IsTable, find_oldest_source, find_oldest_min,
  find_oldest_none,
}
use bitlab.Engine.Table.{erase-IsTable, lookup-of_In, length-erase-In, All-erase}

-- The entry that a round picks.
record Picked (m : Assoc Activity) : Type 0 where
  entry : Activity
  there : In ((find_oldest m no_oldest).0, entry) m
  idle : is_busy entry ≡ false
  at : (find_oldest m no_oldest).1 ≡ entry.last_access

pick : (m : Assoc Activity) → bytes_eq (find_oldest m no_oldest).0 [] ≡ false → Picked m
unfolding bytes_eq
pick m h = elim (find_oldest_source m no_oldest) [
  | inl same ↦ absurd (ground arith)
  | inr (a, there, idle, at) ↦ record { entry = a; there = there; idle = idle; at = at }
]

-- The state after a round that deletes an entry.
abbrev deleted : Engine → Engine
deleted e =
    let oldest = (find_oldest e.act no_oldest).0 in
    record e { act = erase oldest e.act; add_locks = remove_lock oldest e.add_locks }

-- What a drop leaves: the torrent was loaded and idle, and no idle entry that stays is older.
pub record Dropped (e e' : Engine) : Type 0 where
  pub hash : Bytes
  pub torrent : Torrent
  pub entry : Activity
  pub loaded : find_torrent hash e.client ≡ some torrent
  pub known : lookup hash e.act ≡ some entry
  pub idle : is_busy entry ≡ false
  pub gone : e'.client ≡ drop_torrent hash e.client
  pub oldest :
      All
        (λ (x : Bytes × Activity). (is_busy x.1 ≡ true) ⊎ (entry.last_access ≤ℤ x.1.last_access))
        e'.act

-- How a call ended.
unfoldable pub Ended : Engine → Bool × Engine → Type 0
Ended e (true, e') = Dropped e e'
Ended e (false, e') =
    (e'.client ≡ e.client) × All (λ (x : Bytes × Activity). is_busy x.1 ≡ true) e'.act

pub record Run (e : Engine) (r : Bool × Engine) : Type 0 where
  pub capacity : r.1.max_torrents ≡ e.max_torrents
  pub ended : Ended e r
  pub table : IsTable r.1.act
  pub kept :
      (ih : Bytes) (a : Activity)
      → lookup ih e.act ≡ some a
      → is_busy a ≡ true
      → lookup ih r.1.act ≡ some a
  pub old : (ih : Bytes) (a : Activity) → lookup ih r.1.act ≡ some a → lookup ih e.act ≡ some a

deleted-keeps :
    (e : Engine) (p : Picked e.act)
    → IsTable e.act
    → (ih : Bytes) (a : Activity) → lookup ih e.act ≡ some a
    → is_busy a ≡ true
    → lookup ih (deleted e).act ≡ some a
deleted-keeps e p h ih a known busy =
    let oldest = (find_oldest e.act no_oldest).0 in
    ground (
      arith,
      lookup-of_In oldest p.entry e.act p.there h,
      p.idle,
      lookup-erase oldest ih e.act,
      bytes_eq_iff oldest ih,
    )

deleted-old :
    (e : Engine) (ih : Bytes) (a : Activity)
    → lookup ih (deleted e).act ≡ some a
    → lookup ih e.act ≡ some a
deleted-old e ih a known = ground (arith, lookup-erase (find_oldest e.act no_oldest).0 ih e.act)

Ended-deleted :
    (e : Engine) (r : Bool × Engine)
    → Ended (deleted e) r
    → ((h : Bytes) (a : Activity) → lookup h (deleted e).act ≡ some a → lookup h e.act ≡ some a)
    → Ended e r
unfolding Ended
Ended-deleted e (true, e') d old = record {
  hash = d.hash;
  torrent = d.torrent;
  entry = d.entry;
  loaded = d.loaded;
  known = old d.hash d.entry d.known;
  idle = d.idle;
  gone = d.gone;
  oldest = d.oldest;
}
Ended-deleted e (false, e') d old = d

-- What the rounds after a deletion establish holds of the whole call.
Run-deleted :
    (e : Engine) (r : Bool × Engine) → IsTable e.act → Picked e.act → Run (deleted e) r → Run e r
Run-deleted e r h p run = record {
  capacity = run.capacity;
  ended = Ended-deleted e r run.ended (deleted-old e);
  table = run.table;
  kept = λ ih a k b. run.kept ih a (deleted-keeps e p h ih a k b) b;
  old = λ ih a k. deleted-old e ih a (run.old ih a k);
}

drop_now : (e : Engine) → Engine
drop_now e = record (deleted e) { client = drop_torrent (find_oldest e.act no_oldest).0 e.client }

busy_or_later :
    {a b : ℤ} (c : ℤ)
    → a ≡ b
    → (busy : Bool) {x : Bool} → x ≡ busy
    → (x ≡ false → a ≤ℤ c)
    → (x ≡ true) ⊎ (b ≤ℤ c)
busy_or_later c at true e le = inl e
busy_or_later c at false e le = inr (rw (← at) (le e))

Run-drop :
    (e : Engine) (t : Torrent)
    → IsTable e.act
    → Picked e.act
    → find_torrent (find_oldest e.act no_oldest).0 e.client ≡ some t
    → Run e (true, drop_now e)
unfolding Ended drop_now
Run-drop e t h p loaded = record {
  capacity = refl;
  ended = record {
    hash = (find_oldest e.act no_oldest).0;
    torrent = t;
    entry = p.entry;
    loaded = loaded;
    known = lookup-of_In _ p.entry e.act p.there h;
    idle = p.idle;
    gone = refl;
    oldest = All-erase _ _ e.act (
        All-mono _ _ e.act (λ x le. busy_or_later x.1.last_access p.at (is_busy x.1) refl le)
          (find_oldest_min e.act no_oldest h).0);
  };
  table = erase-IsTable _ e.act h;
  kept = deleted-keeps e p h;
  old = deleted-old e;
}

pub evict_loop-Run :
    (f : ℕ) (e : Engine)
    → IsTable e.act
    → length e.act < f
    → (r : Bool × Engine) × (evict_loop f e ≡ some r) × Run e r
unfolding evict_loop drop_now
evict_loop-Run zero e h lt = absurd (omega arith)
evict_loop-Run (suc f) e h lt = elim (Bool-cases (bytes_eq (find_oldest e.act no_oldest).0 [])) [
  | inl nobody ↦ (
    (false, e),
    rw nobody,
    record {
      capacity = refl;
      ended = unfold Ended in (refl, (find_oldest_none e.act no_oldest h nobody).0);
      table = h;
      kept = λ ih a k b. k;
      old = λ ih a k. k;
    },
  )
  | inr somebody ↦
      let p = pick e.act somebody in
      let (r, ran, run) =
        evict_loop-Run f (deleted e) (erase-IsTable _ e.act h)
          (omega (arith, length-erase-In _ p.entry e.act p.there)) in
      elim (Option-cases (find_torrent (find_oldest e.act no_oldest).0 e.client)) [
        | inl absent ↦ (r, rw (somebody, absent) ran, Run-deleted e r h p run)
        | inr (t, loaded) ↦ ((true, drop_now e), rw (somebody, loaded), Run-drop e t h p loaded)
      ]
]
