-- ===== src/Voice/Pcm/Codec.antt =====
-- What G.711 keeps of a sample.
use cell_bridge.Ints.{ℤ, pos, negsuc}
use Prim.Native.Nat.{bit_and, bit_or}
use cell_bridge.Voice.Pcm.{
  segment_from, encode_sample, decode_sample, signed, biased, magnitude, sign_of,
}
use cell_bridge.Base.{
  ℕ, all_below, Bool, ◌<◌, ◌≤◌, ◌-◌, ◌≡◌, ◌==◌, true, if◌then◌else◌, ◌^◌, refl, ==_iff, ◌+◌, ◌%◌,
  ◌*◌, arith, all_below_sound, false, ◌/◌, suc, ap, zero, ◌∙◌,
}

same_code : ℕ → Bool
same_code c = encode_sample (decode_sample c) == (if c == 0x7f then 0xff else c)

same_code_table : all_below 256 same_code ≡ true
unfolding all_below same_code encode_sample decode_sample
same_code_table = refl

-- Decoding a code and encoding the sample gives the code back, for all 256 codes but 0x7f, the
-- negative zero, which comes back as 0xff, the positive one.
pub encode-decode_sample :
    (c : ℕ) → c < 256 → encode_sample (decode_sample c) ≡ (if c == 0x7f then 0xff else c)
unfolding same_code
encode-decode_sample c h = (==_iff _ _).0 (all_below_sound 256 same_code c same_code_table h)

-- The segment found for a biased magnitude.
segment_range :
    (v : ℕ)
    → 132 ≤ v
    → v < 32768
    → let s = segment_from 7 0 v in (s < 8) × (2 ^ (s + 7) ≤ v) × (v < 2 ^ (s + 8))
unfolding segment_from
segment_range v lo hi = ground arith

mantissa_table : all_below 32 (λ x. bit_and x 0x0f == x % 16) ≡ true
unfolding all_below
mantissa_table = refl

abbrev code_of : ℕ → ℕ → ℕ → ℕ
code_of sign segment mantissa = 255 - bit_or (bit_or (sign * 0x80) (segment * 2 ^ 4 % 256)) mantissa

abbrev ℤ_beq : ℤ → ℤ → Bool
ℤ_beq (pos a) (pos b) = a == b
ℤ_beq (negsuc a) (negsuc b) = a == b
ℤ_beq (pos a) (negsuc b) = false
ℤ_beq (negsuc a) (pos b) = false

ℤ_beq_sound : (a b : ℤ) → ℤ_beq a b ≡ true → a ≡ b
ℤ_beq_sound a b h = ground arith

code_row : ℕ → ℕ → ℕ → Bool
code_row sign segment mantissa =
    ℤ_beq (decode_sample (code_of sign segment mantissa))
      (signed (sign == 1) ((mantissa * 2 ^ 3 + 132) * 2 ^ segment - 132))

code_table :
    all_below 2
      (λ sign. all_below 8 (λ segment. all_below 16 (λ mantissa. code_row sign segment mantissa)))
    ≡ true
unfolding all_below code_row decode_sample
code_table = refl

decode_code :
    (sign segment mantissa : ℕ)
    → sign < 2
    → segment < 8
    → mantissa < 16
    → decode_sample (code_of sign segment mantissa)
      ≡ signed (sign == 1) ((mantissa * 2 ^ 3 + 132) * 2 ^ segment - 132)
unfolding code_row
decode_code sign segment mantissa a b c = ℤ_beq_sound _ _ (
    all_below_sound 16 _ mantissa
      (all_below_sound 8 _ segment (all_below_sound 2 _ sign code_table a) b) c)

-- The middle of the step that a magnitude falls in.
step_middle :
    (s v : ℕ)
    → s < 8
    → 2 ^ (s + 7) ≤ v
    → v < 2 ^ (s + 8)
    → let middle = (v / 2 ^ (s + 3) % 16 * 2 ^ 3 + 132) * 2 ^ s in
      (v / 2 ^ (s + 3) < 32) × (132 ≤ middle) × (32 * middle ≤ 33 * v) × (31 * v ≤ 32 * middle)
step_middle zero v h lo hi = omega arith
step_middle (suc zero) v h lo hi = omega arith
step_middle (suc (suc zero)) v h lo hi = omega arith
step_middle (suc (suc (suc zero))) v h lo hi = omega arith
step_middle (suc (suc (suc (suc zero)))) v h lo hi = omega arith
step_middle (suc (suc (suc (suc (suc zero))))) v h lo hi = omega arith
step_middle (suc (suc (suc (suc (suc (suc zero)))))) v h lo hi = omega arith
step_middle (suc (suc (suc (suc (suc (suc (suc zero))))))) v h lo hi = omega arith
step_middle (suc (suc (suc (suc (suc (suc (suc (suc s)))))))) v h lo hi = absurd (omega arith)

abbrev sign_bit : ℤ → ℕ
sign_bit (pos n) = 0
sign_bit (negsuc n) = 1

encode_code :
    (x : ℤ)
    → let v = biased (magnitude x) in
      let s = segment_from 7 0 v in
      v / 2 ^ (s + 3) < 32 → encode_sample x ≡ code_of (sign_bit x) s (v / 2 ^ (s + 3) % 16)
unfolding encode_sample
encode_code (pos n) h =
    rw ((==_iff _ _).0 (all_below_sound 32 (λ x. bit_and x 0x0f == x % 16) _ mantissa_table h)) refl
encode_code (negsuc n) h =
    rw ((==_iff _ _).0 (all_below_sound 32 (λ x. bit_and x 0x0f == x % 16) _ mantissa_table h)) refl

magnitude-signed : (b : Bool) (n : ℕ) → magnitude (signed b n) ≡ n
magnitude-signed false n = refl
magnitude-signed true zero = refl
magnitude-signed true (suc n) = omega arith

decode_encoded :
    (x : ℤ)
    → let v = biased (magnitude x) in
      let s = segment_from 7 0 v in
      v / 2 ^ (s + 3) < 32
      → s < 8
      → decode_sample (encode_sample x)
        ≡ signed (sign_bit x == 1) ((v / 2 ^ (s + 3) % 16 * 2 ^ 3 + 132) * 2 ^ s - 132)
decode_encoded x h e =
    ap decode_sample (encode_code x h) ∙ decode_code (sign_bit x) _ _ (sign_small x) e (omega arith)
  where
    sign_small : (x : ℤ) → sign_bit x < 2
    sign_small (pos n) = omega arith
    sign_small (negsuc n) = omega arith

sign_test : (x : ℤ) → (sign_bit x == 1) ≡ (sign_of x == 0x80)
sign_test (pos n) = refl
sign_test (negsuc n) = refl

-- A sample that is not clipped, of magnitude m, comes back from its code with the same sign and a
-- magnitude that is off by at most (m + 132) / 32.
pub decode-encode_sample :
    (x : ℤ)
    → magnitude x ≤ 32635
    → (r : ℕ) × (decode_sample (encode_sample x) ≡ signed (sign_of x == 0x80) r)
      × (32 * r ≤ 32 * magnitude x + (magnitude x + 132))
      × (32 * magnitude x ≤ 32 * r + (magnitude x + 132))
decode-encode_sample x h =
    let v = magnitude x + 132 in
    let (s8, lo, hi) = segment_range v (omega arith) (omega arith) in
    let (small, base, up, down) = step_middle (segment_from 7 0 v) v s8 lo hi in
    let unclipped : biased (magnitude x) ≡ v = ground arith in
    let middle : ℕ =
      (v / 2 ^ (segment_from 7 0 v + 3) % 16 * 2 ^ 3 + 132) * 2 ^ segment_from 7 0 v in
    (
      middle - 132,
      (rw unclipped at (decode_encoded x)) small s8
          ∙ ap (λ b. signed b (middle - 132)) (sign_test x),
      omega arith,
      omega arith,
    )
