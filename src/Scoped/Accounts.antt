-- ===== src/Scoped/Accounts.antt =====
-- What becomes of the values of SharedUtils/ScopedResources.h's objects, over any operations.
use iis_asgi_handler.Prelude.{
  ℕ, ◌+◌, ◌<◌, ◌==◌, ◌≡◌, refl, sym, subst, ◌∙◌, false, List, [], ◌∷◌, length, length-append, none,
  Result, Returns, Returns-bind, Returns-mono, arith,
}
use iis_asgi_handler.Scoped.{
  Value, Traits, Log, set_value, transfer_value, release_value, act, get, Operation,
  construct_default, construct, construct_move, assign_move, set, receive, transfer, release,
  Objects, on, set_to, move, fresh, step, run,
}
use iis_asgi_handler.Scoped.Members.{
  times, held, gone, Settles, Fair, set_value-Fair, transfer_value-Fair, release_value-Fair, Acted,
  act-Acted, get-Returns, held-new,
}

-- The number of objects after an operation.
abbrev pub after : ℕ → Operation → ℕ
after n construct_default = n + 1
after n (construct value) = n + 1
after n (construct_move other) = n + 1
after n _ = n

-- The operation is on objects that there are, and no object is assigned itself.
abbrev pub Possible : ℕ → Operation → Type 0
Possible n construct_default = Unit {0}
Possible n (construct value) = Unit {0}
Possible n (construct_move other) = other < n
Possible n (assign_move this other) = (this < n) × (other < n) × ((this == other) ≡ false)
Possible n (set this value) = this < n
Possible n (receive this value) = this < n
Possible n (transfer this) = this < n
Possible n (release this) = this < n

abbrev pub AllPossible : ℕ → List Operation → Type 0
AllPossible n [] = Unit {0}
AllPossible n (op ∷ ops) = Possible n op × AllPossible (after n op) ops

module _ (traits : Traits) where
  -- So many objects are left by an operation, and the accounts settle.
  record Left (count : ℕ) (o o' : Objects traits) : Type 0 where
    number : length o'.values ≡ count
    settles : (n : ℕ) → Settles n (held o.values) o.log (held o'.values) o'.log

  Left-trans : {k l : ℕ} (a b c : Objects traits) → Left k a b → Left l b c → Left l a c
  Left-trans a b c p q = record {
    number = q.number;
    settles = λ n. omega (arith, p.settles n, q.settles n);
  }

  on-Left :
      (f : Value × Log → Value × Log) (i : ℕ) (o : Objects traits)
      → Fair f
      → i < length o.values
      → Returns (Left (length o.values) o) (on traits f i o)
  unfolding on
  on-Left f i o fair h =
      Returns-bind (λ (xs', log'). Acted o.values o.log xs' log') _ (act f i o.values o.log) _
        (act-Acted f i o.values o.log fair h)
        λ (xs', log') a. record { number = a.same_number; settles = a.settles }

  set_to-Left :
      (i : ℕ) (value : Value) (o : Objects traits)
      → i < length o.values
      → Returns (Left (length o.values) o) (set_to traits i value o)
  unfolding set_to
  set_to-Left i value o h =
      let (wrapped, w) = traits.wrap value o.world in
      Returns-mono (Left (length o.values) (record o { world = w })) _
        (on traits (set_value wrapped) i (record o { world = w }))
        (λ o' l. record { number = l.number; settles = l.settles })
        (on-Left (set_value wrapped) i (record o { world = w }) (set_value-Fair wrapped) h)

  move-Left :
      (this other : ℕ) (o : Objects traits)
      → this < length o.values
      → other < length o.values
      → Returns (Left (length o.values) o) (move traits this other o)
  unfolding move
  move-Left this other o h k =
      Returns-bind _ _ (get other o.values) _ (get-Returns other o.values k) λ value _.
        Returns-bind (Left (length o.values) o) _ (on traits transfer_value other o) _
          (on-Left transfer_value other o transfer_value-Fair k)
          λ o₁ l₁.
            Returns-mono _ _ (set_to traits this value o₁)
              (λ o₂ l₂.
                let l = Left-trans o o₁ o₂ l₁ l₂ in
                record { number = l.number ∙ l₁.number; settles = l.settles })
              (set_to-Left this value o₁ (omega (arith, l₁.number)))

  fresh-Left : (o : Objects traits) → Left (length o.values + 1) o (fresh traits o)
  fresh-Left o = record {
    number = length-append o.values (none ∷ []);
    settles = λ n. rw (held-new o.values) (refl);
  }

  -- What is done to a new object.
  new-Left :
      (o : Objects traits) (m : Result (Objects traits))
      → Returns (Left (length (fresh traits o).values) (fresh traits o)) m
      → Returns (Left (length o.values + 1) o) m
  new-Left o m h =
      Returns-mono _ _ m
        (λ o' l.
          Left-trans o (fresh traits o) o' (fresh-Left o) (record {
            number = l.number ∙ length-append o.values (none ∷ []);
            settles = l.settles;
          }))
        h

  step-Left :
      (op : Operation) (o : Objects traits)
      → Possible (length o.values) op
      → Returns (Left (after (length o.values) op) o) (step traits op o)
  unfolding step
  step-Left construct_default o h = fresh-Left o
  step-Left (construct value) o h = new-Left o _ (
      set_to-Left (length o.values) value (fresh traits o)
        (omega (arith, length-append o.values (none ∷ []))))
  step-Left (construct_move other) o h = new-Left o _ (
      move-Left (length o.values) other (fresh traits o)
        (omega (arith, length-append o.values (none ∷ [])))
        (omega (arith, length-append o.values (none ∷ []))))
  step-Left (assign_move this other) o (h, k, differ) = rw differ (move-Left this other o h k)
  step-Left (set this value) o h = set_to-Left this value o h
  step-Left (receive this value) o h = on-Left (set_value value) this o (set_value-Fair value) h
  step-Left (transfer this) o h = on-Left transfer_value this o transfer_value-Fair h
  step-Left (release this) o h = on-Left release_value this o release_value-Fair h

  -- The accounts of the objects.
  abbrev pub Accounted : Objects traits → Type 0
  Accounted o = (n : ℕ) → times n o.log.given ≡ times n (held o.values) + gone n o.log

  -- From objects of which every value is accounted for, operations on objects that there are, of
  -- which none is assigned itself, end without an error, and every value that an object was given is
  -- held, released, given away by Transfer() or overwritten, exactly as often as it was given: none
  -- is released more often, and what is lost is just what another value took the place of.
  pub run-Accounted :
      (ops : List Operation) (o : Objects traits)
      → AllPossible (length o.values) ops
      → Accounted o
      → Returns Accounted (run traits ops o)
  unfolding run
  run-Accounted [] o h a = a
  run-Accounted (op ∷ ops) o (h, rest) a =
      Returns-bind (Left (after (length o.values) op) o) Accounted (step traits op o) _
        (step-Left op o h)
        λ o' l.
          run-Accounted ops o' (subst (λ k. AllPossible k ops) (sym l.number) rest)
            (λ n. omega (arith, a n, l.settles n))
