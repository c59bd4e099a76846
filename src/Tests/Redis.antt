-- ===== src/Tests/Redis.antt =====
-- A Redis server in memory, and a message through it.
use mathlib.Core.Logic.{ite, if_pos, if_neg}
use iis_asgi_handler.Prelude.{
  ◌≡◌, ◌≢◌, refl, sym, ap, ap₂, ◌∙◌, inl, inr, List, [], ◌∷◌, ◌++◌, map, Option, none, some, Bytes,
  Bytes-discrete, codes, length, replicate, Error, err, ok, arith,
}
use iis_asgi_handler.Redis.{Redis, prefixed_channels, send_to, receive_many}
use iis_asgi_handler.Redis.Represents.{Represents, put, send_to-Represents}
use iis_asgi_handler.Redis.Refinement.{Takes, receive_many-Takes}
use iis_asgi_handler.Redis.Delivery.{Among, Stores, Usable, receive_many-send, empty_key_throws}

pub record Store : Type 0 where
  pub text : Bytes → Option Bytes
  pub queue : Bytes → List Bytes

abbrev set_text : Bytes → Bytes → Store → Store
set_text k v w = record {
  text = λ j. ite (Bytes-discrete k j) (some v) (w.text j);
  queue = λ j. ite (Bytes-discrete k j) [] (w.queue j);
}

abbrev set_queue : Bytes → List Bytes → Store → Store
set_queue k q w = record w { queue = λ j. ite (Bytes-discrete k j) q (w.queue j) }

-- RPUSH on a text changes nothing.
abbrev push : Option Bytes → Bytes → Bytes → Store → Store
push none k v w = set_queue k (w.queue k ++ v ∷ []) w
push (some t) k v w = w

pub push_text : (o : Option Bytes) (k v j : Bytes) (w : Store) → (push o k v w).text j ≡ w.text j
push_text none k v j w = refl
push_text (some t) k v j w = refl

pub push_queue :
    (o : Option Bytes) (k v : Bytes) (w : Store)
    → o ≡ none
    → (push o k v w).queue k ≡ w.queue k ++ v ∷ []
push_queue none k v w e = if_pos (Bytes-discrete k k) refl (w.queue k ++ v ∷ []) (w.queue k)
push_queue (some t) k v w e = absurd (cc)

pub push_other :
    (o : Option Bytes) (k v j : Bytes) (w : Store) → j ≢ k → (push o k v w).queue j ≡ w.queue j
push_other none k v j w other =
    if_neg (Bytes-discrete k j) (λ same. other (sym same)) (w.queue k ++ v ∷ []) (w.queue j)
push_other (some t) k v j w other = refl

abbrev pop_key :
    List Bytes → Bytes → Option (Bytes × Bytes) × Store → Store → Option (Bytes × Bytes) × Store
pop_key [] k rest w = rest
pop_key (v ∷ vs) k rest w = (some (k, v), set_queue k vs w)

abbrev pub pop : List Bytes → Store → Option (Bytes × Bytes) × Store
pop [] w = (none, w)
pop (k ∷ ks) w = let rest = pop ks w in pop_key (w.queue k) k rest w

abbrev pub store : Redis
store = record {
  World = Store;
  set = set_text;
  expire = λ k n w. w;
  rpush = λ k v w. push (w.text k) k v w;
  blpop = pop;
  get = λ k w. w.text k;
}

pop_key_text :
    (q : List Bytes) (k j : Bytes) (rest : Option (Bytes × Bytes) × Store) (w : Store)
    → rest.1.text j ≡ w.text j
    → (pop_key q k rest w).1.text j ≡ w.text j
pop_key_text [] k j rest w h = h
pop_key_text (v ∷ vs) k j rest w h = refl

pub pop_text : (keys : List Bytes) (j : Bytes) (w : Store) → (pop keys w).1.text j ≡ w.text j
pop_text [] j w = refl
pop_text (k ∷ ks) j w = pop_key_text (w.queue k) k j (pop ks w) w (pop_text ks j w)

abbrev Gives : List Bytes → Store → Option (Bytes × Bytes) → Store → Type 0
Gives keys w none w' =
    ((k : Bytes) → Among k keys → w.queue k ≡ []) × ((k : Bytes) → w'.queue k ≡ w.queue k)
Gives keys w (some (k, v)) w' =
    Among k keys × (w.queue k ≡ v ∷ w'.queue k) × ((j : Bytes) → j ≢ k → w'.queue j ≡ w.queue j)

pop_key-Gives :
    (q : List Bytes) (k : Bytes) (ks : List Bytes) (rest : Option (Bytes × Bytes) × Store)
    (w : Store)
    → w.queue k ≡ q
    → (o : Option (Bytes × Bytes)) → (pop_key q k rest w).0 ≡ o
    → ((o' : Option (Bytes × Bytes)) → rest.0 ≡ o' → Gives ks w o' rest.1)
    → Gives (k ∷ ks) w o (pop_key q k rest w).1
pop_key-Gives [] k ks rest w e none h later =
    let (empty, same) = later none h in
    (λ j among. elim among [ inl eq ↦ ap w.queue eq ∙ e | inr a ↦ empty j a ], same)
pop_key-Gives [] k ks rest w e (some (j, v)) h later =
    let (among, first, others) = later (some (j, v)) h in (inr among, first, others)
pop_key-Gives (v ∷ vs) k ks rest w e none h later = absurd (cc)
pop_key-Gives (v ∷ vs) k ks rest w e (some (j, u)) h later =
    let pair : Path (Bytes × Bytes) (k, v) (j, u) =
      ap (λ (o : Option (Bytes × Bytes)). elim o [ none ↦ (k, v) | some p ↦ p ]) h in
    let same = ap (λ (p : Bytes × Bytes). p.0) pair in
    let value = ap (λ (p : Bytes × Bytes). p.1) pair in
    (
      inl (sym same),
      ap w.queue (sym same)
          ∙ e
          ∙ ap₂ (λ x l. x ∷ l) value (sym (if_pos (Bytes-discrete k j) same vs (w.queue j))),
      λ i other. if_neg (Bytes-discrete k i) (λ eq. other (sym eq ∙ same)) vs (w.queue i),
    )

pub pop-Gives :
    (keys : List Bytes) (w : Store) (o : Option (Bytes × Bytes))
    → (pop keys w).0 ≡ o
    → Gives keys w o (pop keys w).1
pop-Gives [] w none h = (λ k among. elim among [ ], λ k. refl)
pop-Gives [] w (some (j, v)) h = absurd (cc)
pop-Gives (k ∷ ks) w o h = pop_key-Gives (w.queue k) k ks (pop ks w) w refl o h (pop-Gives ks w)

abbrev pub store_lawful : Stores store
store_lawful = record {
  text = λ w k. w.text k;
  queue = λ w k. w.queue k;
  text-set = λ k v w. if_pos (Bytes-discrete k k) refl (some v) (w.text k);
  queue-set = λ k v w. if_pos (Bytes-discrete k k) refl [] (w.queue k);
  queue-set_other =
      λ k v j w other. if_neg (Bytes-discrete k j) (λ same. other (sym same)) [] (w.queue j);
  text-expire = λ k j n w. refl;
  queue-expire = λ k j n w. refl;
  text-rpush = λ k v j w. push_text (w.text k) k v j w;
  queue-rpush = λ k v w h. push_queue (w.text k) k v w h;
  queue-rpush_other = λ k v j w other. push_other (w.text k) k v j w other;
  get_text = λ k w. refl;
  text-blpop = λ keys j w. pop_text keys j w;
  blpop_some = λ keys w k v e. (pop-Gives keys w (some (k, v)) e).1;
  blpop_asked = λ keys w k v e. (pop-Gives keys w (some (k, v)) e).0;
  blpop_none = λ keys w e. (pop-Gives keys w none e).0;
  blpop_nothing = λ keys w j e. (pop-Gives keys w none e).1 j;
  blpop_other = λ keys w k v j e other. (pop-Gives keys w (some (k, v)) e).2 j other;
  text-set_other =
      λ k v j w other. if_neg (Bytes-discrete k j) (λ same. other (sym same)) (some v) (w.text j);
}

abbrev pub empty_store : Store
empty_store = record { text = λ k. none; queue = λ k. [] }

empty-Usable :
    Usable store store_lawful (codes "asgi:") (codes "0123456789") (codes "a") empty_store
empty-Usable = record {
  other_name = λ e. let l = ap length e in absurd (omega arith);
  no_list = refl;
  no_text = refl;
}

receive_many-send_run :
    let w' =
      send_to store (codes "asgi:") (codes "0123456789") (codes "a") (codes "hi") empty_store in
    receive_many store (codes "asgi:") (λ ks. ks) (codes "b" ∷ codes "a" ∷ []) w'
    ≡ ok (
      (codes "a", codes "hi"),
      (pop (prefixed_channels (codes "asgi:") (codes "b" ∷ codes "a" ∷ [])) w').1,
    )
receive_many-send_run =
    receive_many-send store store_lawful (codes "asgi:") (λ ks. ks) (λ k ks h. h)
      (codes "0123456789") (codes "a") (codes "hi") (codes "b" ∷ codes "a" ∷ []) empty_store
      (inr (inl refl)) (λ k among. refl) empty-Usable

-- Something was pushed on the key that has no name.
abbrev odd_store : Store
odd_store = record { text = λ k. none; queue = λ k. codes "x" ∷ [] }

empty_key_throws_run :
    (prefixed_channels (codes "asgi:") (codes "a" ∷ [])
      ≡ replicate 1 [] ++ map (λ c. codes "asgi:" ++ c) (codes "a" ∷ []))
    × (receive_many store (codes "asgi:") (λ ks. ks) (codes "a" ∷ []) odd_store
        ≡ err Error.logic_error)
unfolding prefixed_channels
empty_key_throws_run =
    empty_key_throws store (codes "asgi:") (codes "x") (codes "a" ∷ []) (λ ks. ks) odd_store
      (omega arith) refl

pub empty-Represents : Represents store store_lawful (codes "asgi:") empty_store (λ c. [])
empty-Represents = record { holds = λ c. tt; no_empty_key = refl }

abbrev pub one_sent : Store
one_sent = send_to store (codes "asgi:") (codes "0123456789") (codes "a") (codes "hi") empty_store

send_to-Represents_example :
    Represents store store_lawful
      (codes "asgi:")
      one_sent
      (put (codes "a") (codes "hi" ∷ []) (λ c. []))
send_to-Represents_example =
    send_to-Represents store store_lawful (codes "asgi:") (codes "0123456789") (codes "a")
      (codes "hi") empty_store (λ c. []) (omega arith) empty-Represents
      (λ c k among. elim among [ ]) empty-Usable

pub one_sent-Represents :
    Represents store store_lawful
      (codes "asgi:")
      one_sent
      (put (codes "a") (codes "hi" ∷ []) (λ c. []))
one_sent-Represents =
    send_to-Represents store store_lawful (codes "asgi:") (codes "0123456789") (codes "a")
      (codes "hi") empty_store (λ c. []) (omega arith) empty-Represents
      (λ c k among. elim among [ ]) empty-Usable

receive_many-Takes_example :
    Takes store store_lawful
      (codes "asgi:")
      (codes "b" ∷ codes "a" ∷ [])
      (put (codes "a") (codes "hi" ∷ []) (λ c. []))
      (pop (prefixed_channels (codes "asgi:") (codes "b" ∷ codes "a" ∷ [])) one_sent).1
      (receive_many store (codes "asgi:") (λ ks. ks) (codes "b" ∷ codes "a" ∷ []) one_sent)
receive_many-Takes_example =
    receive_many-Takes store store_lawful (codes "asgi:") (λ ks. ks) (codes "b" ∷ codes "a" ∷ [])
      one_sent (put (codes "a") (codes "hi" ∷ []) (λ c. [])) (λ k ks h. h) (λ k ks h. h)
      (omega arith) one_sent-Represents
