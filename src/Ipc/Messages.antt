-- ===== src/Ipc/Messages.antt =====
-- The bytes of the messages that are sent.
use opennop.Prelude.{
  ℕ, zero, suc, ◌+◌, ◌≡◌, refl, ap, ◌∙◌, true, false, List, [], ◌∷◌, ◌++◌, arith, Option, take,
  drop, replicate, length,
}
use opennop.Ipc.{
  MessageType, type_code, is_empty, initialize_opennop_ipc_header, get_header_data, add_message,
  calculate_hmac_sha256, ipc_message,
}

-- The message behind the header and the security data.
abbrev pub body : MessageType → ℕ → ℕ → ℕ → ℕ → List ℕ
body kind a b c d = type_code kind ∷ 0 ∷ 8 ∷ 0 ∷ a ∷ b ∷ c ∷ d ∷ []

abbrev pub plain : MessageType → ℕ → ℕ → ℕ → ℕ → List ℕ
plain kind a b c d = (1 ∷ 0 ∷ 1 ∷ 0 ∷ 16 ∷ 0 ∷ 0 ∷ 0 ∷ []) ++ body kind a b c d

abbrev pub with_security : List ℕ → MessageType → ℕ → ℕ → ℕ → ℕ → List ℕ
with_security h kind a b c d = (1 ∷ 0 ∷ 1 ∷ 0 ∷ 48 ∷ 0 ∷ 1 ∷ 0 ∷ []) ++ (h ++ body kind a b c d)

-- What the HMAC is computed over.
abbrev pub unsigned : MessageType → ℕ → ℕ → ℕ → ℕ → List ℕ
unsigned kind a b c d = with_security (replicate 32 0) kind a b c d

pub take-prefix_add :
    (xs ys : List ℕ) (k n : ℕ) → n ≡ length xs + k → take n (xs ++ ys) ≡ xs ++ take k ys
take-prefix_add [] ys k n e = let e' : n ≡ k = omega arith in rw e'
take-prefix_add (x ∷ xs) ys k zero e = absurd (omega arith)
take-prefix_add (x ∷ xs) ys k (suc n) e = ap (◌∷◌ x) (take-prefix_add xs ys k n (omega arith))

pub drop-prefix_add : (xs ys : List ℕ) (k n : ℕ) → n ≡ length xs + k → drop n (xs ++ ys) ≡ drop k ys
drop-prefix_add [] ys k n e = let e' : n ≡ k = omega arith in rw e'
drop-prefix_add (x ∷ xs) ys k zero e = absurd (omega arith)
drop-prefix_add (x ∷ xs) ys k (suc n) e = drop-prefix_add xs ys k n (omega arith)

-- Security data written into a buffer whose length is known.
fill_lem :
    (h header ys : List ℕ)
    → length header ≡ 8
    → length h ≡ 32
    → take 48 (header ++ (h ++ drop (8 + length h) (header ++ ys)))
      ≡ header ++ (h ++ take 8 (drop 32 ys))
fill_lem h header ys e len =
    take-prefix_add header (h ++ drop (8 + length h) (header ++ ys)) 40 48 (omega arith)
    ∙ ap (λ zs. header ++ zs)
        (take-prefix_add h _ 8 40 (omega arith)
          ∙ ap (λ zs. h ++ take 8 zs) (drop-prefix_add header ys 32 (8 + length h) (omega arith)))

module _ (hmac : List ℕ → List ℕ → List ℕ) (peer : ℕ → Option ℕ) (now : ℕ) (kind : MessageType)
    (key : List ℕ) (a b c d : ℕ) where
  pub ipc_message-plain :
      is_empty key ≡ true
      → ipc_message hmac peer now kind key (a ∷ b ∷ c ∷ d ∷ []) ≡ plain kind a b c d
  unfolding ipc_message initialize_opennop_ipc_header get_header_data add_message
  ipc_message-plain e = rw e refl

  pub ipc_message-signed :
      let h = hmac (take 64 key) (unsigned kind a b c d) in
      is_empty key ≡ false
      → length h ≡ 32
      → ipc_message hmac peer now kind key (a ∷ b ∷ c ∷ d ∷ []) ≡ with_security h kind a b c d
  unfolding ipc_message initialize_opennop_ipc_header get_header_data add_message
      calculate_hmac_sha256
  ipc_message-signed e len = rw e (
      fill_lem _ (1 ∷ 0 ∷ 1 ∷ 0 ∷ 48 ∷ 0 ∷ 1 ∷ 0 ∷ [])
        (replicate 32 0 ++ (body kind a b c d ++ replicate 976 0)) refl len)
