-- ===== src/Channels.antt =====
-- AsgiHandlerLib/ChannelLayer.h: the names of new channels.
pub mod Names
use iis_asgi_handler.Prelude.{
  ℕ, zero, suc, ◌-◌, ◌%◌, List, [], ◌∷◌, ◌++◌, Bytes, length, get_or, codes,
}

-- `std::default_random_engine`: a state, and the draws that come from it.
pub record Engine : Type 1 where
  pub State : Type 0
  pub draw : State → ℕ × State

abbrev pub charset : Bytes
charset = codes "0123456789ABCDEFGHIJKLMNOPQRSTUVWXYZabcdefghijklmnopqrstuvwxyz"

-- `strlen(charset) - 1`
abbrev pub max_index : ℕ
max_index = length charset - 1

module _ (engine : Engine) where
  open engine use {State, draw}

  -- ChannelLayer::GenerateRandomAscii()
  unfoldable pub generate_random_ascii : ℕ → State → Bytes × State
  generate_random_ascii zero s = ([], s)
  generate_random_ascii (suc n) s =
      let (r, s') = draw s in
      let (rest, s'') = generate_random_ascii n s' in (get_or charset (r % max_index) 0 ∷ rest, s'')

  -- ChannelLayer::NewChannel()
  unfoldable pub new_channel : (prefix : Bytes) → State → Bytes × State
  new_channel prefix s = let (random, s') = generate_random_ascii 10 s in (prefix ++ random, s')
