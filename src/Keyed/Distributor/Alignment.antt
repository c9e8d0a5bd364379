-- ===== src/Keyed/Distributor/Alignment.antt =====
-- malstrom-core/src/keyed/distributed.rs: barriers and suspend markers wait for every remote.
use malstrom.Base.{
  Bool, true, false, Option, none, some, List, [], ◌∷◌, ◌++◌, map, ◌≡◌, ◌≢◌, ◌⊎◌, inl, inr, refl,
  Bool-cases, Option-cases, arith, ite, all,
}
use malstrom.Base.IndexMap
use malstrom.Base.IndexMap.{keys, values}
use mathlib.Core.Option
use malstrom.Types.{WorkerId, Barrier, abs_barrier}
use malstrom.Keyed.Types.{Remote, Remotes, NetworkMessage, World, emit}
use malstrom.Keyed.Distributor.{Distributor, poll, is_aligned, unbar, try_emit_barrier}
use native.Mathlib.Decide.{ℕ_discrete}

module _ {K V T : Type 0} where
  -- The messages of one worker.
  unfoldable pub sent_by :
      WorkerId → List (WorkerId × NetworkMessage K V T) → List (NetworkMessage K V T)
  sent_by wid [] = []
  sent_by wid ((i, m) ∷ msgs) = ite (ℕ_discrete i wid) (m ∷ sent_by wid msgs) (sent_by wid msgs)

  -- What `poll` does to one remote, by its state before and after and the messages read from it.
  abbrev pub IsPolled :
      Option (Remote K V T) → Option (Remote K V T) → List (NetworkMessage K V T) → Type 0
  IsPolled none none msgs = msgs ≡ []
  IsPolled (some r) (some r') msgs =
      (msgs ++ r'.inbox ≡ r.inbox)
      × (r'.state ≡ r.state)
      × (is_aligned r ≡ true → msgs ≡ [])
      × (is_aligned r ≡ false → r.inbox ≢ [] → (m : NetworkMessage K V T) × (msgs ≡ m ∷ []))
  IsPolled _ _ msgs = ⊥

  pub get-poll-none :
      (wid : WorkerId) (rs : Remotes K V T)
      → IndexMap.get ℕ_discrete wid rs ≡ none
      → (IndexMap.get ℕ_discrete wid (poll rs).1 ≡ none) × (sent_by wid (poll rs).0 ≡ [])
  unfolding IndexMap.get poll sent_by
  get-poll-none wid [] h = (refl, refl)
  get-poll-none wid ((i, r) ∷ rs) h = ground (arith, get-poll-none wid rs)

  -- `run` reads at most one message from each remote, the oldest, and none from a remote that is
  -- barred or suspended; it reads one from every other remote that has any. The state of no remote
  -- changes by it. No worker has two connections.
  pub poll-IsPolled :
      (wid : WorkerId) (rs : Remotes K V T)
      → IndexMap.Distinct ℕ_discrete rs
      → IsPolled
          (IndexMap.get ℕ_discrete wid rs)
          (IndexMap.get ℕ_discrete wid (poll rs).1)
          (sent_by wid (poll rs).0)
  unfolding IndexMap.get poll sent_by
  poll-IsPolled wid [] d = refl
  poll-IsPolled wid ((i, r) ∷ rs) d =
      ground (arith, d, get-poll-none i rs d.0, poll-IsPolled wid rs d.1)

  all-get :
      (p : Remote K V T → Bool) (rs : Remotes K V T)
      → all p (values rs) ≡ true
      → (wid : WorkerId) (r : Remote K V T) → IndexMap.get ℕ_discrete wid rs ≡ some r
      → p r ≡ true
  unfolding IndexMap.get
  all-get p [] h wid r e = cc
  all-get p ((i, s) ∷ rs) h wid r e = ground (arith, all-get p rs _ wid r)

  get-cons :
      (i wid : WorkerId) (s r : Remote K V T) (rs : Remotes K V T)
      → IndexMap.get ℕ_discrete i rs ≡ none
      → IndexMap.get ℕ_discrete wid rs ≡ some r
      → IndexMap.get ℕ_discrete wid ((i, s) ∷ rs) ≡ some r
  unfolding IndexMap.get
  get-cons i wid s r rs h e = elim (ℕ_discrete i wid) [
    | yes same ↦ cc
    | no other ↦ ground (arith, e, other)
  ]

  not_all-get :
      (p : Remote K V T → Bool) (rs : Remotes K V T)
      → IndexMap.Distinct ℕ_discrete rs
      → all p (values rs) ≡ false
      → (wid : WorkerId) × (r : Remote K V T) × (IndexMap.get ℕ_discrete wid rs ≡ some r)
        × (p r ≡ false)
  unfolding IndexMap.get
  not_all-get p [] d h = cc
  not_all-get p ((i, s) ∷ rs) d h = elim (Bool-cases (p s)) [
    | inl e ↦
        let (wid, r, at, f) = not_all-get p rs d.1 (ground (arith, e, h)) in
        (wid, r, get-cons i wid s r rs d.0 at, f)
    | inr e ↦ (i, s, ground arith, e)
  ]

  get-unbar :
      (wid : WorkerId) (rs : Remotes K V T)
      → IndexMap.get ℕ_discrete wid (map (λ e. (e.0, unbar e.1)) rs)
        ≡ Option.map unbar (IndexMap.get ℕ_discrete wid rs)
  unfolding IndexMap.get
  get-unbar wid [] = refl
  get-unbar wid ((i, r) ∷ rs) = ground (arith, get-unbar wid rs)

  aligned_cases :
      (r : Remote K V T)
      → is_aligned r ≡ true
      → (r.state.is_barred ≡ true) ⊎ (r.state.sent_suspend ≡ true)
  aligned_cases r h = ground arith

  -- The local barrier goes out because every remote is barred or suspended, and every bar is lifted
  -- with it; or nothing happens, and there is no local barrier or a remote that has sent neither.
  abbrev pub IsBarrierStep :
      Distributor K V T → World K V T → Distributor K V T → World K V T → Type 0
  IsBarrierStep d w d' w' =
      ((b : Barrier) × (d.local_barrier ≡ some b)
        × (d'.local_barrier ≡ none)
        × (w' ≡ emit (abs_barrier b) w)
        × ((wid : WorkerId) (r : Remote K V T)
            → IndexMap.get ℕ_discrete wid d.remotes ≡ some r
            → ((r.state.is_barred ≡ true) ⊎ (r.state.sent_suspend ≡ true))
              × (IndexMap.get ℕ_discrete wid d'.remotes ≡ some (unbar r))))
      ⊎ ((d' ≡ d)
          × (w' ≡ w)
          × ((d.local_barrier ≡ none)
              ⊎ ((wid : WorkerId) × (r : Remote K V T) × (IndexMap.get ℕ_discrete wid d.remotes
                    ≡ some r)
                  × (r.state.is_barred ≡ false)
                  × (r.state.sent_suspend ≡ false))))

  -- `try_emit_barrier`: a barrier goes out exactly when it has come from the local upstream and every
  -- remote has sent its barrier or its suspend marker, be it without any barrier; then all bars are
  -- lifted. Otherwise nothing changes, and there is no local barrier or a remote that has sent neither.
  -- No worker has two connections.
  pub try_emit_barrier-IsBarrierStep :
      (d : Distributor K V T) (w : World K V T)
      → IndexMap.Distinct ℕ_discrete d.remotes
      → IsBarrierStep d w (try_emit_barrier d w).0 (try_emit_barrier d w).1
  unfolding try_emit_barrier
  try_emit_barrier-IsBarrierStep d w h = elim (Option-cases d.local_barrier) [
    | inl e ↦ inr (ground (arith, e), ground (arith, e), inl e)
    | inr (b, e) ↦ elim (Bool-cases (all is_aligned (values d.remotes))) [
      | inl a ↦ inl (
        b,
        e,
        ground (arith, e, a),
        ground (arith, e, a),
        λ wid r at. (
          aligned_cases r (all-get is_aligned d.remotes a wid r at),
          ground (arith, e, a, get-unbar wid d.remotes, at),
        ),
      )
      | inr a ↦
          let (wid, r, at, f) = not_all-get is_aligned d.remotes h a in
          inr (
            ground (arith, e, a),
            ground (arith, e, a),
            inr (wid, r, at, ground (arith, f), ground (arith, f)),
          )
    ]
  ]
