-- ===== src/Stream/Order.antt =====
-- src/futures/stream.rs: what each poll delivers, against the inner stream's history.
use gardal.Prelude.{arith, ℕ, ◌≡◌, refl, sym, ap, ◌∙◌, Option, none, some, List, [], ◌∷◌, ◌++◌}
use gardal.Clock.Source.{Clock}
use gardal.Storage.Interface.{TimeStorage, Interference}
use gardal.Bucket.{TokenBucket}
use gardal.Stream.{
  Poll, ready, pending, Polled, InnerStream, Runtime, Task, leave, take_pending, deliver, postpone,
  pay, fetch, pass_through, poll_next,
}
use mathlib.Core.List.{append-nil}

-- The items that an answer carries.
abbrev pub pulled : {Item : Type 0} → Poll (Option Item) → List Item
pulled (ready (some x)) = x ∷ []
pulled (ready none) = []
pulled pending = []

abbrev pub held : {Item : Type 0} → Option Item → List Item
held none = []
held (some x) = x ∷ []

-- An inner stream has a history: the items that its polls have given.
pub record History (S Item X : Type 0) ⦃i : InnerStream S Item X⦄ : Type 0 where
  pub log : S → List Item
  pub log-poll :
      (s : S) (cx : X) → let (x, (s', cx')) = i.poll_next s cx in log s' ≡ log s ++ pulled x

-- A pending item and its delay come and go together, and only with a bucket.
abbrev pub Tidy : {B D Item : Type 0} → Option B → Option D → Option Item → Type 0
Tidy _ none none = Unit
Tidy (some b) (some d) (some x) = Unit
Tidy _ _ _ = ⊥

module _ {S ST C D X Item : Type 0} ⦃i : InnerStream S Item X⦄ (h : History S Item X) where
  -- What was delivered and what is pending is what the inner stream has given.
  abbrev pub Tracks : List Item → Task S ST C D X Item → Type 0
  Tracks given p =
      (h.log p.this.stream ≡ given ++ held p.this.pending_item)
      × Tidy p.this.bucket p.this.delay p.this.pending_item

  -- And so after a poll that answers.
  abbrev pub TracksAfter : List Item → Polled Item (Task S ST C D X Item) → Type 0
  TracksAfter given none = Unit
  TracksAfter given (some (x, p)) = Tracks (given ++ pulled x) p

same : {A : Type 0} (given xs : List A) {l : List A} → l ≡ given ++ xs → l ≡ given ++ [] ++ xs
same given xs e = e ∙ ap (λ g. g ++ xs) (sym (append-nil given))

moved : {A : Type 0} (given xs : List A) {l : List A} → l ≡ given ++ xs → l ≡ given ++ xs ++ []
moved given xs e = e ∙ sym (append-nil (given ++ xs))

-- Nothing was held before the inner stream gave `xs`.
grown :
    {A : Type 0} (given xs : List A) {l l' : List A}
    → l ≡ given ++ []
    → l' ≡ l ++ xs
    → l' ≡ given ++ xs
grown given xs e f = f ∙ ap (λ g. g ++ xs) (e ∙ append-nil given)

module _ {S ST C D X Item : Type 0} ⦃t : TimeStorage ST⦄ ⦃k : Clock C⦄ ⦃i : InnerStream S Item X⦄
    ⦃r : Runtime X D⦄ (h : History S Item X) (given : List Item) where
  deliver-Tracks :
      (before : X) (s : S) (b : TokenBucket ST C) (f : Item → ℕ) (d : D) (item : Item)
      (env : List Interference) (cx : X)
      → h.log s ≡ given ++ held (some item)
      → TracksAfter h given (
          deliver before (record {
            this = record {
              stream = s;
              bucket = some b;
              weight_fn = f;
              delay = some d;
              pending_item = some item;
            };
            env = env;
            cx = cx;
          }))
  unfolding deliver take_pending leave
  deliver-Tracks before s b f d item env cx e = go (r.poll d cx).0 refl
    where
      go :
          (x : Poll (Unit {0}))
          → (r.poll d cx).0 ≡ x
          → TracksAfter h given (
              deliver before (record {
                this = record {
                  stream = s;
                  bucket = some b;
                  weight_fn = f;
                  delay = some d;
                  pending_item = some item;
                };
                env = env;
                cx = cx;
              }))
      go (ready u) p = rw (p, TracksAfter) (moved given (item ∷ []) e, tt)
      go pending p = rw (p, TracksAfter) (same given (item ∷ []) e, tt)

  pay-Tracks :
      (p : Task S ST C D X Item) (b : TokenBucket ST C) (item : Item)
      → h.log p.this.stream ≡ given ++ (item ∷ [])
      → p.this.delay ≡ none
      → p.this.pending_item ≡ none
      → TracksAfter h given (pay b item p)
  unfolding pay postpone
  pay-Tracks p b item e no_delay no_item =
      let paid = moved given (item ∷ []) e in let owed = same given (item ∷ []) e in ground arith

  fetch-Tracks :
      (before : X) (p : Task S ST C D X Item) (b : TokenBucket ST C)
      → h.log p.this.stream ≡ given ++ []
      → p.this.delay ≡ none
      → p.this.pending_item ≡ none
      → TracksAfter h given (fetch before b p)
  unfolding fetch leave
  fetch-Tracks before p b e no_delay no_item =
      go (i.poll_next p.this.stream p.cx).0 refl (h.log-poll p.this.stream p.cx)
    where
      s' : S
      s' = (i.poll_next p.this.stream p.cx).1.0

      go :
          (x : Poll (Option Item))
          → (i.poll_next p.this.stream p.cx).0 ≡ x
          → h.log s' ≡ h.log p.this.stream ++ pulled x
          → TracksAfter h given (fetch before b p)
      go pending q l =
          rw (q, TracksAfter, no_delay, no_item) (same given [] (grown given [] e l), tt)
      go (ready none) q l =
          rw (q, TracksAfter, no_delay, no_item) (same given [] (grown given [] e l), tt)
      go (ready (some item)) q l =
          rw (q, fetch) (pay-Tracks _ b item (grown given (item ∷ []) e l) no_delay no_item)

  pass_through-Tracks :
      (before : X) (p : Task S ST C D X Item)
      → h.log p.this.stream ≡ given ++ []
      → p.this.delay ≡ none
      → p.this.pending_item ≡ none
      → TracksAfter h given (pass_through before p)
  unfolding pass_through leave
  pass_through-Tracks before p e no_delay no_item =
      go (i.poll_next p.this.stream p.cx).0 refl (h.log-poll p.this.stream p.cx)
    where
      s' : S
      s' = (i.poll_next p.this.stream p.cx).1.0

      go :
          (x : Poll (Option Item))
          → (i.poll_next p.this.stream p.cx).0 ≡ x
          → h.log s' ≡ h.log p.this.stream ++ pulled x
          → TracksAfter h given (pass_through before p)
      go pending q l =
          rw (q, TracksAfter, no_delay, no_item) (same given [] (grown given [] e l), tt)
      go (ready none) q l =
          rw (q, TracksAfter, no_delay, no_item) (same given [] (grown given [] e l), tt)
      go (ready (some item)) q l =
          rw (q, TracksAfter, no_delay, no_item)
            (moved given (item ∷ []) (grown given (item ∷ []) e l), tt)

  proceeded-Tracks :
      (s : S) (b : Option (TokenBucket ST C)) (f : Item → ℕ) (d : Option D) (x : Option Item)
      (env : List Interference) (cx : X)
      → h.log s ≡ given ++ held x
      → Tidy b d x
      → TracksAfter h given (
          poll_next (record {
            this = record { stream = s; bucket = b; weight_fn = f; delay = d; pending_item = x };
            env = env;
            cx = cx;
          }))
  unfolding poll_next
  proceeded-Tracks s b f d x env cx e tidy = go (r.poll_proceed cx).0 refl b d x e tidy
    where
      go :
          (proceed : Poll (Unit {0}))
          → (r.poll_proceed cx).0 ≡ proceed
          → (b : Option (TokenBucket ST C)) (d : Option D) (x : Option Item)
          → h.log s ≡ given ++ held x
          → Tidy b d x
          → TracksAfter h given (
              poll_next (record {
                this = record {
                  stream = s;
                  bucket = b;
                  weight_fn = f;
                  delay = d;
                  pending_item = x;
                };
                env = env;
                cx = cx;
              }))
      go pending q b d x e tidy = rw (q, TracksAfter) (same given (held x) e, tidy)
      go (ready u) q none none none e tidy =
          rw (q, poll_next) (pass_through-Tracks cx _ e refl refl)
      go (ready u) q (some b) none none e tidy = rw (q, poll_next) (fetch-Tracks cx _ b e refl refl)
      go (ready u) q none none (some x) e tidy = elim tidy [ ]
      go (ready u) q none (some d) x e tidy = elim tidy [ ]
      go (ready u) q (some b) none (some x) e tidy = elim tidy [ ]
      go (ready u) q (some b) (some d) none e tidy = elim tidy [ ]
      go (ready u) q (some b) (some d) (some x) e tidy =
          rw (q, poll_next) (deliver-Tracks cx s b f d x env _ e)

  -- Every poll keeps it.
  pub poll_next-Tracks :
      (p : Task S ST C D X Item) → Tracks h given p → TracksAfter h given (poll_next p)
  poll_next-Tracks p (e, tidy) =
      proceeded-Tracks p.this.stream p.this.bucket p.this.weight_fn p.this.delay p.this.pending_item
        p.env p.cx e tidy
