-- ===== src/Channels/Output/Delivery.antt =====
-- Who receives what an operator sends.
use malstrom.Base.{
  ℕ, zero, suc, Bool, true, false, List, [], ◌∷◌, ◌≡◌, ◌∙◌, refl, ap, if◌then◌else◌, Result, ok,
  ◌||◌, ◌&&◌, panic, length, get_elem?, arith,
}
use mathlib.Core.Option
use malstrom.Types.{DataMessage, Message, data_record, epoch, suspend_marker}
use malstrom.Types.Time.{MaybeTime}
use malstrom.Channels.Spsc
use malstrom.Channels.Spsc.{SharedInner}
use malstrom.Channels.Output
use malstrom.Channels.Output.{
  Build, asserts, Output, deliver, count_true, replicate_false, broadcast,
}

-- The flag of an edge.
abbrev pub flag : List Bool → ℕ → Bool
flag [] i = false
flag (b ∷ bs) zero = b
flag (b ∷ bs) (suc i) = flag bs i

length-replicate_false : (n : ℕ) → length (replicate_false n) ≡ n
length-replicate_false zero = refl
length-replicate_false (suc n) = ap suc (length-replicate_false n)

module _ {ℓ} {A : Type ℓ} where
  -- The flagged edges get the message, the others stay as they are.
  reach : List Bool → List (SharedInner A) → A → List (SharedInner A)
  reach [] ss msg = []
  reach (b ∷ bs) [] msg = []
  reach (b ∷ bs) (s ∷ ss) msg = (if b then Spsc.send s msg else s) ∷ reach bs ss msg

  deliver-reach :
      (bs : List Bool) (ss : List (SharedInner A)) (msg : A)
      → length bs ≡ length ss
      → deliver bs ss (count_true bs) msg ≡ ok (reach bs ss msg)
  unfolding deliver reach
  deliver-reach [] [] msg h = refl
  deliver-reach [] (s ∷ ss) msg h = absurd (omega arith)
  deliver-reach (b ∷ bs) [] msg h = absurd (omega arith)
  deliver-reach (false ∷ bs) (s ∷ ss) msg h = ground (arith, deliver-reach bs ss msg)
  deliver-reach (true ∷ bs) (s ∷ ss) msg h = ground (arith, deliver-reach bs ss msg)

  get_elem?-reach :
      (bs : List Bool) (ss : List (SharedInner A)) (msg : A) (i : ℕ)
      → length bs ≡ length ss
      → get_elem? (reach bs ss msg) i
        ≡ Option.map (λ s. if flag bs i then Spsc.send s msg else s) (get_elem? ss i)
  unfolding reach
  get_elem?-reach [] [] msg i h = refl
  get_elem?-reach [] (s ∷ ss) msg i h = absurd (omega arith)
  get_elem?-reach (b ∷ bs) [] msg i h = absurd (omega arith)
  get_elem?-reach (b ∷ bs) (s ∷ ss) msg zero h = refl
  get_elem?-reach (b ∷ bs) (s ∷ ss) msg (suc i) h = get_elem?-reach bs ss msg i (omega arith)

  get_elem?-broadcast :
      (ss : List (SharedInner A)) (msg : A) (i : ℕ)
      → get_elem? (broadcast msg ss) i ≡ Option.map (λ s. Spsc.send s msg) (get_elem? ss i)
  get_elem?-broadcast [] msg i = refl
  get_elem?-broadcast (s ∷ ss) msg zero = refl
  get_elem?-broadcast (s ∷ ss) msg (suc i) = get_elem?-broadcast ss msg i

module _ {K V T : Type 0} where
  -- Whether the edge at a place gets the message: what the partitioner says of data, and always
  -- for the messages of the system.
  abbrev pub targets : Output K V T → Message K V T → ℕ → Bool
  targets o (data_record x) i = flag (o.partitioner x (replicate_false (length o.senders))) i
  targets o _ i = true

  abbrev pub is_suspend : Message K V T → Bool
  is_suspend (suspend_marker m) = true
  is_suspend _ = false

  -- A slice that is written through `&mut [bool]` keeps its length.
  abbrev pub KeepsLength : (DataMessage K V T → List Bool → List Bool) → Type 0
  KeepsLength p = (x : DataMessage K V T) (bs : List Bool) → length (p x bs) ≡ length bs

  -- What `send` promises of the output that it leaves.
  pub record Sent (o : Output K V T) (msg : Message K V T) (r : Result (Output K V T))
      : Type 0 where
    pub after : Output K V T
    pub returns : r ≡ ok after
    pub reached :
        (i : ℕ)
        → get_elem? after.senders i
          ≡ Option.map (λ s. if targets o msg i then Spsc.send s msg else s) (get_elem? o.senders i)
    pub marked : after.suspended ≡ (is_suspend msg || o.suspended)

  -- What `send` does when its assertion fails, and when it does not.
  abbrev pub SentWhen : Bool → Output K V T → Message K V T → Result (Output K V T) → Type 0
  SentWhen true o msg r = r ≡ panic
  SentWhen false o msg r = Sent o msg r

module _ {K V T : Type 0} ⦃t : MaybeTime T⦄ where
  forward-Sent :
      (o : Output K V T) (msg : Message K V T)
      → KeepsLength o.partitioner
      → Sent o msg (Output.forward o msg)
  unfolding Output.forward
  forward-Sent o (data_record x) h =
      let flags : List Bool = o.partitioner x (replicate_false (length o.senders)) in
      let fits : length flags ≡ length o.senders =
        h x (replicate_false (length o.senders)) ∙ length-replicate_false (length o.senders) in
      record {
        after = record o { senders = reach flags o.senders (data_record x) };
        returns = rw (deliver-reach flags o.senders (data_record x) fits);
        reached = λ i. get_elem?-reach flags o.senders (data_record x) i fits;
        marked = refl;
      }
  forward-Sent o (epoch e) h = record {
    after = record o {
      senders = broadcast (epoch e) o.senders;
      frontier = Output.raise e o.frontier;
    };
    returns = refl;
    reached = get_elem?-broadcast o.senders (epoch e);
    marked = refl;
  }
  forward-Sent o (suspend_marker m) h = record {
    after = record o { senders = broadcast (suspend_marker m) o.senders; suspended = true };
    returns = refl;
    reached = get_elem?-broadcast o.senders (suspend_marker m);
    marked = refl;
  }
  forward-Sent o msg h = record {
    after = record o { senders = broadcast msg o.senders };
    returns = refl;
    reached = get_elem?-broadcast o.senders msg;
    marked = refl;
  }

  guarded-Sent :
      (b : Bool) (o : Output K V T) (msg : Message K V T) (r : Result (Output K V T))
      → Sent o msg r
      → SentWhen b o msg (if b then panic else r)
  guarded-Sent true o msg r s = refl
  guarded-Sent false o msg r s = s

  -- With a partitioner that keeps the length of the flags, `send` panics exactly if the build has
  -- debug assertions and the output is suspended. Otherwise the edge at each place gets the message
  -- exactly if it is a target, all edges for a message of the system; and only a suspend marker marks
  -- the output suspended.
  pub send-SentWhen :
      (build : Build) (o : Output K V T) (msg : Message K V T)
      → KeepsLength o.partitioner
      → SentWhen (asserts build && o.suspended) o msg (Output.send build o msg)
  unfolding Output.send
  send-SentWhen build o msg h =
      guarded-Sent (asserts build && o.suspended) o msg (Output.forward o msg)
        (forward-Sent o msg h)
