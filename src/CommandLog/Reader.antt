-- ===== src/CommandLog/Reader.antt =====
-- `io.ReadFull` over the bytes that a reader has left, and what every decoder built from it has:
-- an outcome that did not run out of bytes is the same with more bytes behind.
use rockskv.Prelude.{
  ltb, if◌then◌else◌, Outcome, ok, err, panic, ◌>>=◌, length, take, drop, length-append,
  take-length-append, drop-length-append, take-append_le, drop-append_le, ℕ, zero, suc, ◌≡◌, refl,
  ◌⊎◌, inl, inr, [], ◌∷◌, ◌++◌, arith,
}
use rockskv.Bytes.{Bytes}

pub data ReadError : Type 0 where
  eof unexpected_eof crc_mismatch : ReadError

unfoldable pub read_full : ℕ → Bytes → Outcome ReadError (Bytes × Bytes)
read_full zero r = ok ([], r)
read_full (suc n) [] = err eof
read_full (suc n) (b ∷ r) =
    if ltb (length r) n then err unexpected_eof else ok (take (suc n) (b ∷ r), drop (suc n) (b ∷ r))

pub read_full-append :
    (n : ℕ) (xs ys : Bytes) → n ≡ length xs → read_full n (xs ++ ys) ≡ ok (xs, ys)
unfolding read_full
read_full-append zero [] ys h = refl
read_full-append zero (x ∷ xs) ys h = absurd (omega arith)
read_full-append (suc n) [] ys h = absurd (omega arith)
read_full-append (suc n) (x ∷ xs) ys h =
    ground (arith, length-append xs ys, take-length-append n xs ys, drop-length-append n xs ys)

abbrev pub IsIncomplete : {A : Type 0} → Outcome ReadError A → Type 0
IsIncomplete r = (r ≡ err eof) ⊎ (r ≡ err unexpected_eof)

-- the outcome with more bytes behind the rest
abbrev pub grow :
    {A : Type 0} → Bytes → Outcome ReadError (A × Bytes) → Outcome ReadError (A × Bytes)
grow more (ok (a, r)) = ok (a, r ++ more)
grow more (err e) = err e
grow more panic = panic

-- The decoder either ran out of bytes, or more bytes change nothing but the rest.
abbrev pub IsStable : {A : Type 0} → (Bytes → Outcome ReadError (A × Bytes)) → Type 0
IsStable f = (bs more : Bytes) → IsIncomplete (f bs) ⊎ (f (bs ++ more) ≡ grow more (f bs))

pub read_full-IsStable : (n : ℕ) → IsStable (read_full n)
unfolding read_full
read_full-IsStable zero bs more = inr refl
read_full-IsStable (suc n) [] more = inl (inl refl)
read_full-IsStable (suc n) (b ∷ r) more =
    ground (arith, length-append r more, take-append_le n r more, drop-append_le n r more)

pub bind-IsStable :
    {A B : Type 0} (f : Bytes → Outcome ReadError (A × Bytes))
    (g : A → Bytes → Outcome ReadError (B × Bytes))
    → IsStable f
    → ((a : A) → IsStable (g a))
    → IsStable (λ bs. f bs >>= λ p. g p.0 p.1)
bind-IsStable {A} f g sf sg bs more = go (f bs) refl (sf bs more)
  where
    go :
        (o : Outcome ReadError (A × Bytes))
        → f bs ≡ o
        → IsIncomplete (f bs) ⊎ (f (bs ++ more) ≡ grow more (f bs))
        → IsIncomplete (f bs >>= λ p. g p.0 p.1)
          ⊎ ((f (bs ++ more) >>= λ p. g p.0 p.1) ≡ grow more (f bs >>= λ p. g p.0 p.1))
    go o e (inl (inl i)) = inl (inl (rw i))
    go o e (inl (inr i)) = inl (inr (rw i))
    go (ok (a, r)) e (inr s) = rw (s, e) (sg a r more)
    go (err x) e (inr s) = inr (rw (s, e))
    go panic e (inr s) = inr (rw (s, e))
