-- ===== src/Channels/Spsc/Fifo.antt =====
-- The channel as a queue: every history of sends and receives.
use malstrom.Base.{
  true, Option, none, some, List, [], ◌∷◌, ◌++◌, ◌≡◌, refl, append_assoc, append-nil, arith,
}
use malstrom.Channels.Spsc.{SharedInner, send, recv, drop_receiver}

pub data Call {ℓ} (A : Type ℓ) : Type ℓ where
  sends : A → Call A
  recvs : Call A

module _ {ℓ} {A : Type ℓ} where
  abbrev pub sent : List (Call A) → List A
  sent [] = []
  sent (sends a ∷ cs) = a ∷ sent cs
  sent (recvs ∷ cs) = sent cs

  abbrev pub keep : Option A → List A → List A
  keep none xs = xs
  keep (some x) xs = x ∷ xs

  -- What the calls hand out, in order, and the channel they leave.
  unfoldable pub run : SharedInner A → List (Call A) → List A × SharedInner A
  run s [] = ([], s)
  run s (sends a ∷ cs) = run (send s a) cs
  run s (recvs ∷ cs) = let (o, s') = recv s in let (out, s'') = run s' cs in (keep o out, s'')

  recv-keep : (s : SharedInner A) → keep (recv s).0 (recv s).1.buffer ≡ s.buffer
  unfolding recv
  recv-keep s = ground arith

  -- While the receiver lives, what was received followed by what is still buffered is what was
  -- buffered followed by what was sent: no message is lost, doubled or overtaken.
  pub run-fifo :
      (s : SharedInner A) (cs : List (Call A))
      → s.has_receiver ≡ true
      → ((run s cs).0 ++ (run s cs).1.buffer ≡ s.buffer ++ sent cs)
        × ((run s cs).1.has_receiver ≡ true)
  unfolding run send recv
  run-fifo s [] h = (ground (arith, append-nil s.buffer), h)
  run-fifo s (sends a ∷ cs) h =
      ground (arith, run-fifo (send s a) cs, append_assoc s.buffer (a ∷ []) (sent cs))
  run-fifo s (recvs ∷ cs) h = ground (arith, run-fifo (recv s).1 cs)

  -- Once the receiver is dropped, whatever is sent is thrown away: nothing is buffered any more.
  pub run-drop_receiver :
      (s : SharedInner A) (cs : List (Call A))
      → (run (drop_receiver s) cs).0 ++ (run (drop_receiver s) cs).1.buffer ≡ s.buffer
  unfolding run send recv drop_receiver
  run-drop_receiver s [] = refl
  run-drop_receiver s (sends a ∷ cs) = run-drop_receiver s cs
  run-drop_receiver s (recvs ∷ cs) = ground (arith, run-drop_receiver (recv s).1 cs)
