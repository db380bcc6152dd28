-- ===== src/JetStream/Round.antt =====
-- messaging/queue.py `JetStreamQueue.consume_loop`: one turn of its `while`.
use ocean_data_engine_fronte.Prelude.{
  ℕ, ◌≡◌, refl, ◌⊎◌, inl, inr, String, List, [], ◌∷◌, ◌++◌, Bool, true, false, Option, none, some,
  if◌then◌else◌, is_empty, Bool-cases, All, ap,
}
use ocean_data_engine_fronte.Queue.Priority.{QueuePriority}
use ocean_data_engine_fronte.Worker.Defs.{Handler}
use ocean_data_engine_fronte.JetStream.Dispatch.{
  Request, Ending, finished, escaped, Server, Delivery, dispatch_one,
}

-- what `sub.fetch` returned; an exception, such as its timeout, counts as no messages
abbrev pub batch : Option (List Delivery) → List Delivery
batch none = []
batch (some msgs) = msgs

-- what the turn has to show: the requests made for each message, how it ended, and the world
pub record Turn (S : Type 0) : Type 0 where
  pub served : Option QueuePriority
  pub requests : List (List Request)
  pub ending : Ending
  pub world : S

module _ {S : Type 0} (server : Server) (handlers : String → Option (Handler S)) (uniform : ℕ → ℕ)
    (max_deliver : ℕ) where
  abbrev continue : List Request → Turn S → Turn S
  continue requests rest = record rest { requests = requests ∷ rest.requests }

  -- an exception that leaves `_dispatch_one` leaves the loop too
  dispatch_all : QueuePriority → List Delivery → S → Turn S
  dispatch_all p [] world = record {
    served = some p;
    requests = [];
    ending = finished;
    world = world;
  }
  dispatch_all p (msg ∷ msgs) world =
      let (requests, ending, world') = dispatch_one server handlers uniform max_deliver msg world in
      elim ending [
        | finished ↦ continue requests (dispatch_all p msgs world')
        | escaped error ↦ record {
          served = some p;
          requests = requests ∷ [];
          ending = escaped error;
          world = world';
        }
      ]

  -- `subscribed` is `self._subs.get(pr) is not None`. After a batch with a message the turn ends, so
  -- that the next one polls from the top.
  unfoldable pub poll :
      (QueuePriority → Bool)
      → (QueuePriority → Option (List Delivery))
      → List QueuePriority
      → S
      → Turn S
  unfolding dispatch_all
  poll subscribed fetch [] world = record {
    served = none;
    requests = [];
    ending = finished;
    world = world;
  }
  poll subscribed fetch (p ∷ ps) world =
      let rest = poll subscribed fetch ps world in
      if subscribed p
      then (if is_empty (batch (fetch p)) then rest else dispatch_all p (batch (fetch p)) world)
      else rest

  -- A stream from which the turn has nothing to take.
  abbrev pub Idle :
      (QueuePriority → Bool) → (QueuePriority → Option (List Delivery)) → QueuePriority → Type 0
  Idle subscribed fetch p = (subscribed p ≡ false) ⊎ (batch (fetch p) ≡ [])

  served-dispatch_all :
      (p : QueuePriority) (msgs : List Delivery) (world : S)
      → (dispatch_all p msgs world).served ≡ some p
  unfolding dispatch_all
  served-dispatch_all p [] world = refl
  served-dispatch_all p (msg ∷ msgs) world =
      go (dispatch_one server handlers uniform max_deliver msg world) (served-dispatch_all p msgs)
    where
      go :
          (r : List Request × Ending × S)
          → ((w : S) → (dispatch_all p msgs w).served ≡ some p)
          → (let (requests, ending, world') = r in
              let t : Turn S = elim ending [
                | finished ↦ continue requests (dispatch_all p msgs world')
                | escaped error ↦ record {
                  served = some p;
                  requests = requests ∷ [];
                  ending = escaped error;
                  world = world';
                }
              ] in
              t.served ≡ some p)
      go (rs, finished, w) ih = ih w
      go (rs, escaped e, w) ih = refl

  empty→nil : {A : Type 0} (xs : List A) → is_empty xs ≡ true → xs ≡ []
  empty→nil [] h = refl
  empty→nil (x ∷ xs) h = cc

  -- The stream served is the first one of the list that had a message; with none, all were idle.
  abbrev pub IsFirst :
      (QueuePriority → Bool)
      → (QueuePriority → Option (List Delivery))
      → List QueuePriority
      → Option QueuePriority
      → Type 0
  IsFirst subscribed fetch ps none = All (Idle subscribed fetch) ps
  IsFirst subscribed fetch ps (some p) =
      (before after : List QueuePriority) × (ps ≡ before ++ p ∷ after)
      × All (Idle subscribed fetch) before
      × (subscribed p ≡ true)
      × (is_empty (batch (fetch p)) ≡ false)

  skip :
      (subscribed : QueuePriority → Bool) (fetch : QueuePriority → Option (List Delivery))
      (p : QueuePriority) (ps : List QueuePriority) (o : Option QueuePriority)
      → Idle subscribed fetch p
      → IsFirst subscribed fetch ps o
      → IsFirst subscribed fetch (p ∷ ps) o
  skip subscribed fetch p ps none idle h = (idle, h)
  skip subscribed fetch p ps (some q) idle (before, after, e, idles, s, b) =
      (p ∷ before, after, ap (λ l. p ∷ l) e, (idle, idles), s, b)

  -- A turn serves one stream at most, and it is the first in the order of the priorities that has a
  -- message: every stream before it was not subscribed or had none.
  pub poll-IsFirst :
      (subscribed : QueuePriority → Bool) (fetch : QueuePriority → Option (List Delivery))
      (ps : List QueuePriority) (world : S)
      → IsFirst subscribed fetch ps (poll subscribed fetch ps world).served
  unfolding poll
  poll-IsFirst subscribed fetch [] world = tt
  poll-IsFirst subscribed fetch (p ∷ ps) world = elim (Bool-cases (subscribed p)) [
    | inl s ↦ elim (Bool-cases (is_empty (batch (fetch p)))) [
      | inl b ↦
          rw (s, b)
            (skip subscribed fetch p ps _ (inr (empty→nil (batch (fetch p)) b))
              (poll-IsFirst subscribed fetch ps world))
      | inr b ↦ rw (s, b, served-dispatch_all p (batch (fetch p)) world) ([], ps, refl, tt, s, b)
    ]
    | inr s ↦ rw s (skip subscribed fetch p ps _ (inl s) (poll-IsFirst subscribed fetch ps world))
  ]
