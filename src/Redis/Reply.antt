-- ===== src/Redis/Reply.antt =====
-- AsgiHandlerLib/ScopedRedisReply.h: an object that owns a reply of hiredis. A reply is a number,
-- `none` where the pointer is null; `freed` are the replies given to freeReplyObject().
use iis_asgi_handler.Prelude.{
  ℕ, ◌==◌, ◌≡◌, refl, ◌∙◌, true, false, Bool, List, [], ◌∷◌, ◌++◌, append_assoc, Option, none, some,
  if◌then◌else◌,
}

pub record ScopedRedisReply : Type 0 where
  pub reply : Option ℕ
  pub freed : List ℕ

abbrev pub free : Option ℕ → List ℕ → List ℕ
free none freed = freed
free (some r) freed = freed ++ r ∷ []

-- Close()
unfoldable pub close : ScopedRedisReply → ScopedRedisReply
close o = record { reply = none; freed = free o.reply o.freed }

abbrev pub same_reply : Option ℕ → Option ℕ → Bool
same_reply none none = true
same_reply (some r) (some s) = r == s
same_reply _ _ = false

-- Set()
unfoldable pub set : Option ℕ → ScopedRedisReply → ScopedRedisReply
set reply o = if same_reply o.reply reply then o else record (close o) { reply = reply }

-- The constructor.
unfoldable pub construct : Option ℕ → List ℕ → ScopedRedisReply
construct reply freed = set reply (record { reply = none; freed = freed })

-- The move constructor copies the pointer: what the new object and the old one hold.
unfoldable pub construct_move : ScopedRedisReply → Option ℕ × Option ℕ
construct_move other = (other.reply, other.reply)

-- The destructors of the new object and of the old one.
unfoldable pub destroy_both : ScopedRedisReply → List ℕ
destroy_both other =
    let (new, old) = construct_move other in
    let destroyed = close (record { reply = new; freed = other.freed }) in
    (close (record { reply = old; freed = destroyed.freed })).freed

abbrev pub set_each : List ℕ → ScopedRedisReply → ScopedRedisReply
set_each [] o = o
set_each (r ∷ rs) o = set_each rs (set (some r) o)

-- Each reply is another than the one before it.
abbrev pub Changing : ℕ → List ℕ → Type 0
Changing r [] = Unit {0}
Changing r (s ∷ rs) = ((r == s) ≡ false) × Changing s rs

-- An object that is constructed with a reply, given others and destroyed frees each of them once, in
-- their order.
pub close-set_each :
    (r : ℕ) (rs : List ℕ) (freed : List ℕ)
    → Changing r rs
    → (close (set_each rs (record { reply = some r; freed = freed }))).freed ≡ freed ++ r ∷ rs
unfolding close set
close-set_each r [] freed h = refl
close-set_each r (s ∷ rs) freed (differ, rest) =
    rw (set_each, differ)
      (close-set_each s rs (freed ++ r ∷ []) rest ∙ append_assoc freed (r ∷ []) (s ∷ rs))

-- A reply that is moved is freed twice.
pub moved_freed_twice :
    (r : ℕ) (freed : List ℕ) → destroy_both (construct (some r) freed) ≡ freed ++ r ∷ r ∷ []
unfolding destroy_both construct_move construct set close
moved_freed_twice r freed = append_assoc freed (r ∷ []) (r ∷ [])
