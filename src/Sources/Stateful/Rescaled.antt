-- ===== src/Sources/Stateful/Rescaled.antt =====
-- malstrom-core/src/sources/stateful.rs, `on_rescale` and the panics of a source.
use malstrom.Base.{ℕ, ◌^◌, ◌<◌, false, List, [], ◌∷◌, ok, All, ◌≡◌, refl, arith, ◌==◌}
use malstrom.Base.IndexMap.{IndexMap}
use malstrom.Base.IndexSet
use malstrom.Types.{WorkerId, RescaleMessage}
use malstrom.Sources.Stateful.{
  StatefulSourceImpl, SourceOp, on_rescale, add_clients, retain, u64_not,
}
use native.Mathlib.Decide.{ℕ_discrete}

not_self : (w v : ℕ) → w < 2 ^ 63 → v < 2 ^ 63 → (u64_not w == v) ≡ false
not_self w v h k = ground arith

module _ {B Part P S V T : Type 0} (dec : Discrete Part) (impl : StatefulSourceImpl B Part P S V T)
    (this_worker : WorkerId) where
  add_clients-none :
      (wids : List WorkerId) (clients : IndexMap WorkerId (List Part))
      → this_worker < 2 ^ 63
      → All (λ wid. wid < 2 ^ 63) wids
      → add_clients dec impl this_worker wids clients ≡ ok clients
  unfolding add_clients
  add_clients-none [] clients h small = refl
  add_clients-none (wid ∷ wids) clients h small =
      ground (arith, not_self wid this_worker small.0 h, add_clients-none wids clients h small.1)

  -- A source drops its clients to workers that leave, and makes none to workers that join, when no
  -- worker id reaches 2 ^ 63.
  pub on_rescale-clients :
      (m : RescaleMessage) (o : SourceOp B Part P S T)
      → this_worker < 2 ^ 63
      → All (λ wid. wid < 2 ^ 63) m.workers
      → on_rescale dec impl this_worker m o
        ≡ ok (record o {
          comm_clients = retain (λ wid. IndexSet.contains ℕ_discrete wid m.workers) o.comm_clients;
        })
  unfolding on_rescale
  on_rescale-clients m o h small = rw (add_clients-none m.workers _ h small) refl
