-- ===== src/Jwt/Small.antt =====
-- A small signature scheme and a small encoding, for tokens in tests: they stand where jwt/ uses
-- aws_lc_rs, base64 and serde_json.
use Prim.Native.Char.{code}
use pingoo.Prelude.{
  ℕ, zero, suc, ◌+◌, String, List, [], ◌∷◌, ◌++◌, Option, none, some, Bool, true, false, ◌≡◌, ◌↔◌,
  refl, ap, ◌∙◌, eqb, ◌&&◌, Result, ok, err, if◌then◌else◌, ◌==◌, string_eq, length, arith, Lacks,
}
use pingoo.Jwt.{Bytes, Algorithm, eddsa, Header, EcCurve}
use pingoo.Jwt.Key.{Crypto}

abbrev pub bytes_eq : Bytes → Bytes → Bool
bytes_eq [] [] = true
bytes_eq (x ∷ xs) (y ∷ ys) = eqb x y && bytes_eq xs ys
bytes_eq _ _ = false

pub bytes_eq_iff : (xs ys : Bytes) → (bytes_eq xs ys ≡ true) ↔ (xs ≡ ys)
bytes_eq_iff [] [] = ground arith
bytes_eq_iff [] (y ∷ ys) = ground arith
bytes_eq_iff (x ∷ xs) [] = ground arith
bytes_eq_iff (x ∷ xs) (y ∷ ys) = ground (arith, bytes_eq_iff xs ys)

abbrev pub copies : ℕ → ℕ → Bytes
copies zero x = []
copies (suc n) x = x ∷ copies n x

-- a key pair is a number, and a signature is that number and the message's length
abbrev pub small_public_key : ℕ → Bytes
small_public_key k = 4 ∷ (copies 32 k ++ copies 32 (k + 1))

abbrev pub small_ec_from : EcCurve → Bytes → Bytes → Result ℕ String
small_ec_from curve (k ∷ []) p =
    if bytes_eq p (small_public_key k) then ok k else err "inconsistent"
small_ec_from curve _ p = err "size"

abbrev pub small_ed_from : Bytes → Bytes → Result ℕ String
small_ed_from (k ∷ []) p = ok k
small_ed_from _ p = err "size"

abbrev pub small_ed_verify : Bytes → Bytes → Bytes → Option Bool
small_ed_verify (k ∷ []) message signature = some (bytes_eq signature ((k + length message) ∷ []))
small_ed_verify _ message signature = none

abbrev pub small : Crypto
small = record {
  EdKeypair = ℕ;
  EcKeypair = ℕ;
  ed_sign = λ k message. (k + length message) ∷ [];
  ec_sign = λ k nonce message. ok (k ∷ nonce);
  hmac_sign = λ h secret message. secret;
  ed_public_key = λ k. k ∷ [];
  ec_public_key = small_public_key;
  ed_verify = small_ed_verify;
  ec_verify = λ curve public message signature. some true;
  hmac_verify = λ h secret message signature. bytes_eq secret signature;
  ed_seed = λ k. k ∷ [];
  ec_private_key = λ k. k ∷ [];
  ed_from_seed_and_public_key = small_ed_from;
  ec_from_private_key_and_public_key = small_ec_from;
}

-- a byte is as many `a` and a `b`
abbrev pub unary : ℕ → String → String
unary zero s = String.◌∷◌ "b" s
unary (suc n) s = String.◌∷◌ "a" (unary n s)

abbrev pub small_encode : Bytes → String
small_encode [] = ""
small_encode (n ∷ bytes) = unary n (small_encode bytes)

abbrev pub cons_to : ℕ → Option Bytes → Option Bytes
cons_to n none = none
cons_to n (some xs) = some (n ∷ xs)

abbrev pub small_decode_from : ℕ → String → Option Bytes
small_decode_from n String.[] = if eqb n 0 then some [] else none
small_decode_from n (String.◌∷◌ c s) =
    if eqb (code c) b'a' then small_decode_from (suc n) s else cons_to n (small_decode_from 0 s)

pub small_decode-unary :
    (k n : ℕ) (s : String)
    → small_decode_from k (unary n s) ≡ cons_to (k + n) (small_decode_from 0 s)
small_decode-unary k zero s = ap (λ m. cons_to m (small_decode_from 0 s)) (omega arith)
small_decode-unary k (suc n) s =
    small_decode-unary (suc k) n s ∙ ap (λ m. cons_to m (small_decode_from 0 s)) (omega arith)

pub small_decode-encode : (bytes : Bytes) → small_decode_from 0 (small_encode bytes) ≡ some bytes
small_decode-encode [] = refl
small_decode-encode (n ∷ bytes) =
    small_decode-unary 0 n (small_encode bytes)
    ∙ ap (λ o. cons_to (0 + n) o) (small_decode-encode bytes)
    ∙ ap (λ m. some (m ∷ bytes)) (omega arith)

pub unary-Lacks : (n : ℕ) (s : String) → Lacks b'.' s → Lacks b'.' (unary n s)
unary-Lacks zero s h = h
unary-Lacks (suc n) s h = unary-Lacks n s h

pub small_encode-Lacks : (bytes : Bytes) → Lacks b'.' (small_encode bytes)
small_encode-Lacks [] = refl
small_encode-Lacks (n ∷ bytes) = unary-Lacks n (small_encode bytes) (small_encode-Lacks bytes)

-- one header is written, the one that names its algorithm only
abbrev pub plain :
    Algorithm
    → Option String
    → Option String
    → Option String
    → Option String
    → Option (List String)
    → Option String
    → Option String
    → Option String
plain eddsa none none (some k) none none none none = if k == "k1" then some "E" else none
plain _ _ _ _ _ _ _ _ = none

abbrev pub small_header : Header
small_header = record {
  alg = eddsa;
  cty = none;
  jku = none;
  kid = some "k1";
  x5u = none;
  x5c = none;
  x5t = none;
  x5t_s256 = none;
}

abbrev pub read_plain : Bytes → Option Header
read_plain bytes = some small_header

abbrev pub codes : String → Bytes
codes String.[] = []
codes (String.◌∷◌ c s) = code c ∷ codes s

pub plain-read :
    (a : Algorithm) (c j k u t s : Option String) (x : Option (List String)) (text : String)
    → plain a c j k u x t s ≡ some text
    → read_plain (codes text)
      ≡ some
          (record { alg = a; cty = c; jku = j; kid = k; x5u = u; x5c = x; x5t = t; x5t_s256 = s })
plain-read a c j none u t s x text h = ground arith
plain-read a c j (some k) u t s x text h = ground (arith, string_eq.same_iff k "k1")
