-- ===== src/Runtime/Threads/Wired.antt =====
-- malstrom-core/src/runtime/threaded/communication.rs: who gets what is sent on a connection.
use malstrom.Base.{
  ℕ, ◌+◌, ◌<◌, Option, none, some, ◌≡◌, ◌≢◌, ◌⊎◌, inl, inr, refl, sym, ap, ◌∙◌, ltb, arith, if_pos,
  if_neg, if◌then◌else◌,
}
use malstrom.Base.IndexMap
use malstrom.Base.IndexMap.{IndexMap, get-insert, get-insert_self}
use malstrom.Types.{WorkerId, OperatorId}
use malstrom.Runtime.Threads.{
  ConnectionKey, key_discrete, connection_key, ChannelTransport, ChannelTransportContainer, Shared,
  transport_pair, or_insert_pair, operator_to_operator,
}

found :
    (k k' : ConnectionKey) (v c : ChannelTransportContainer)
    (m : IndexMap ConnectionKey ChannelTransportContainer)
    → IndexMap.get key_discrete k' (IndexMap.insert key_discrete k v m) ≡ some c
    → ((k ≡ k') × (v ≡ c)) ⊎ ((k ≢ k') × (IndexMap.get key_discrete k' m ≡ some c))
found k k' v c m h =
    let there = get-insert key_discrete k k' v m in
    elim (key_discrete k k') [
      | yes e ↦
          let same =
            sym (if_pos (key_discrete k k') e (some v) (IndexMap.get key_discrete k' m))
            ∙ sym there
            ∙ h in
          inl (e, cc)
      | no e ↦ inr (
        e,
        sym (if_neg (key_discrete k k') e (some v) (IndexMap.get key_discrete k' m))
            ∙ sym there
            ∙ h,
      )
    ]

pub no_entry : {c : ChannelTransportContainer} → none ≡ some c → ⊥
no_entry e = cc

pub same_number : (n n' : ℕ) → transport_pair n ≡ transport_pair n' → n ≡ n'
same_number n n' e = ap (λ c. c.to_low.sender) e

-- The end of a connection on the channels `n` and `n + 1`.
abbrev pub end_of : WorkerId → WorkerId → ℕ → ChannelTransport
end_of to_worker from_worker n =
    if ltb to_worker from_worker then (transport_pair n).to_low else (transport_pair n).to_high

module _ {Q : Type 0} where
  -- Each connection has two channels of its own among those that were opened.
  pub record IsWired (s : Shared Q) : Type 0 where
    pub pairs :
        (k : ConnectionKey) (c : ChannelTransportContainer)
        → IndexMap.get key_discrete k s.addresses ≡ some c
        → (n : ℕ) × (c ≡ transport_pair n) × (n + 1 < s.opened)
    pub apart :
        (k k' : ConnectionKey) (n n' : ℕ)
        → k ≢ k'
        → IndexMap.get key_discrete k s.addresses ≡ some (transport_pair n)
        → IndexMap.get key_discrete k' s.addresses ≡ some (transport_pair n')
        → (n + 1 < n') ⊎ (n' + 1 < n)

  -- The pair that the key has in the map.
  abbrev pub IsAt : ConnectionKey → ℕ → Shared Q → Type 0
  IsAt k n s = IndexMap.get key_discrete k s.addresses ≡ some (transport_pair n)

  below_opened :
      (s : Shared Q) (k : ConnectionKey) (n : ℕ)
      → IsWired s
      → IndexMap.get key_discrete k s.addresses ≡ some (transport_pair n)
      → n + 1 < s.opened
  below_opened s k n w h =
      let (m, same, below) = w.pairs k (transport_pair n) h in
      let e = same_number n m same in ground (arith, e, below)

  module _ (unbounded : Q) where
    or_insert_pair-IsWired :
        (k : ConnectionKey) (s : Shared Q) (r : Option ChannelTransportContainer)
        → IsWired s
        → IndexMap.get key_discrete k s.addresses ≡ r
        → (n : ℕ) × ((or_insert_pair unbounded k r s).0 ≡ transport_pair n)
          × IsAt k n (or_insert_pair unbounded k r s).1
          × IsWired (or_insert_pair unbounded k r s).1
    unfolding or_insert_pair
    or_insert_pair-IsWired k s (some c) w e =
        let (n, same, below) = w.pairs k c e in (n, same, e ∙ ap (λ x. some x) same, w)
    or_insert_pair-IsWired k s none w e = (
      s.opened,
      refl,
      get-insert_self key_discrete k (transport_pair s.opened) s.addresses,
      record {
        pairs = λ k' c h. elim (found k k' (transport_pair s.opened) c s.addresses h) [
          | inl new ↦ (s.opened, sym new.1, ground arith)
          | inr old ↦ let (n, same, below) = w.pairs k' c old.1 in (n, same, ground (arith, below))
        ];
        apart = λ k' k'' n n' other h h'.
            elim (found k k' (transport_pair s.opened) (transport_pair n) s.addresses h) [
              | inl new ↦
                  elim (found k k'' (transport_pair s.opened) (transport_pair n') s.addresses h') [
                    | inl new' ↦ absurd (other (sym new.0 ∙ new'.0))
                    | inr old' ↦
                        let e = same_number s.opened n new.1 in
                        let b = below_opened s k'' n' w old'.1 in inr (ground (arith, e, b))
                  ]
              | inr old ↦
                  elim (found k k'' (transport_pair s.opened) (transport_pair n') s.addresses h') [
                    | inl new' ↦
                        let e = same_number s.opened n' new'.1 in
                        let b = below_opened s k' n w old.1 in inl (ground (arith, e, b))
                    | inr old' ↦ w.apart k' k'' n n' other old.1 old'.1
                  ]
            ];
      },
    )

    pub operator_to_operator-IsWired :
        (to_worker from_worker : WorkerId) (operator : OperatorId) (s : Shared Q)
        → IsWired s
        → (n : ℕ) × ((operator_to_operator unbounded to_worker from_worker operator s).0
            ≡ end_of to_worker from_worker n)
          × IsAt
              (connection_key to_worker from_worker operator)
              n
              (operator_to_operator unbounded to_worker from_worker operator s).1
          × IsWired (operator_to_operator unbounded to_worker from_worker operator s).1
    unfolding operator_to_operator
    operator_to_operator-IsWired to_worker from_worker operator s w =
        let key = connection_key to_worker from_worker operator in
        let (n, same, at_, w') =
          or_insert_pair-IsWired key s (IndexMap.get key_discrete key s.addresses) w refl in
        (n, ap (λ c. if ltb to_worker from_worker then c.to_low else c.to_high) same, at_, w')

    or_insert_pair-IsAt :
        (k k' : ConnectionKey) (n : ℕ) (s : Shared Q) (r : Option ChannelTransportContainer)
        → IndexMap.get key_discrete k s.addresses ≡ r
        → IsAt k' n s
        → IsAt k' n (or_insert_pair unbounded k r s).1
    unfolding or_insert_pair
    or_insert_pair-IsAt k k' n s (some c) e h = h
    or_insert_pair-IsAt k k' n s none e h =
        get-insert key_discrete k k' (transport_pair s.opened) s.addresses
        ∙ elim (key_discrete k k') [
          | yes same ↦
              let e' = ap (λ x. IndexMap.get key_discrete x s.addresses) same in
              absurd (no_entry (sym e ∙ e' ∙ h))
          | no other ↦ if_neg (key_discrete k k') other _ _ ∙ h
        ]

    -- A connection that was made stays where it is.
    pub operator_to_operator-IsAt :
        (k : ConnectionKey) (n : ℕ) (to_worker from_worker : WorkerId) (operator : OperatorId)
        (s : Shared Q)
        → IsAt k n s
        → IsAt k n (operator_to_operator unbounded to_worker from_worker operator s).1
    unfolding operator_to_operator
    operator_to_operator-IsAt k n to_worker from_worker operator s h =
        let key = connection_key to_worker from_worker operator in
        or_insert_pair-IsAt key k n s (IndexMap.get key_discrete key s.addresses) refl h
