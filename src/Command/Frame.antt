-- ===== src/Command/Frame.antt =====
-- command.go: the frame of a message, its length in four bytes and its code in one.
use riak_go_client.Prelude.{ℕ, ◌<◌, ◌≡◌, [], ◌∷◌, arith}
use riak_go_client.Command.{put_uint32, uint32}

pub uint32-put_uint32 : (n : ℕ) → n < 4294967296 → uint32 (put_uint32 n) ≡ n
unfolding uint32 put_uint32
uint32-put_uint32 n h = omega arith

-- Written and read big endian, four bytes in range come back.
pub put_uint32-uint32 :
    (a b c d : ℕ)
    → a < 256
    → b < 256
    → c < 256
    → d < 256
    → put_uint32 (uint32 (a ∷ b ∷ c ∷ d ∷ [])) ≡ a ∷ b ∷ c ∷ d ∷ []
unfolding uint32 put_uint32
put_uint32-uint32 a b c d ha hb hc hd = ground arith
