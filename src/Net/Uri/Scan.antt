-- ===== src/Net/Uri/Scan.antt =====
-- The loop of `URI::from` on the parts of a text.
use libcsics.Base.{
  ℕ, suc, ◌+◌, ◌≡◌, refl, ap, ◌∙◌, Bool, true, ◌&&◌, not, List, [], ◌∷◌, ◌++◌, ◌==◌, length, arith,
  All,
}
use libcsics.Net.Uri.{ok, State, scheme, host, port, path, Cursor, switch, scan}

-- The byte does not end the part.
abbrev pub stays : State → ℕ → Bool
stays scheme x = not (x == b':')
stays host x = not (x == b':') && not (x == b'/')
stays port x = not (x == b'/')
stays path x = true

abbrev pub Stays : State → List ℕ → Type 0
Stays st xs = All (λ x. stays st x ≡ true) xs

-- The variables in a state.
abbrev pub at : State → ℕ → ℕ → ℕ → Cursor
at st a b c = record { state = st; skip = 0; scheme_end = a; host_end = b; port_end = c }

module _ (a b c : ℕ) where
  switch-stays :
      (st : State) (pos x : ℕ) (rest : List ℕ)
      → stays st x ≡ true
      → switch st pos x rest (at st a b c) ≡ ok (at st a b c)
  switch-stays scheme pos x rest h = ground arith
  switch-stays host pos x rest h = ground arith
  switch-stays port pos x rest h = ground arith
  switch-stays path pos x rest h = refl

  pub scan-Stays :
      (st : State) (xs ys : List ℕ) (pos : ℕ)
      → Stays st xs
      → scan (xs ++ ys) pos (at st a b c) ≡ scan ys (pos + length xs) (at st a b c)
  unfolding scan
  scan-Stays st [] ys pos h = ap (λ (p : ℕ). scan ys p (at st a b c)) (omega arith)
  scan-Stays st (x ∷ xs) ys pos (one, h) =
      rw (switch-stays st pos x (xs ++ ys) one)
        (scan-Stays st xs ys (suc pos) h ∙ ap (λ (p : ℕ). scan ys p (at st a b c)) (omega arith))

  -- The part that is scanned last.
  pub scan_end :
      (st : State) (xs : List ℕ) (pos : ℕ)
      → Stays st xs
      → scan xs pos (at st a b c) ≡ ok (at st a b c)
  unfolding scan
  scan_end st [] pos h = refl
  scan_end st (x ∷ xs) pos (one, h) = rw (switch-stays st pos x xs one) (scan_end st xs (suc pos) h)

  -- Behind the scheme the first byte of the host is stepped over.
  pub scan-colon :
      (x : ℕ) (rest : List ℕ) (pos : ℕ)
      → scan (b':' ∷ b'/' ∷ b'/' ∷ x ∷ rest) pos (at scheme a b c)
        ≡ scan rest (pos + 4) (at host pos b c)
  unfolding scan
  scan-colon x rest pos = ap (λ (p : ℕ). scan rest p (at host pos b c)) (omega arith)

  pub scan_port :
      (rest : List ℕ) (pos : ℕ)
      → scan (b':' ∷ rest) pos (at host a b c) ≡ scan rest (pos + 1) (at port a pos c)
  unfolding scan
  scan_port rest pos = ap (λ (p : ℕ). scan rest p (at port a pos c)) (omega arith)

  pub scan_path :
      (rest : List ℕ) (pos : ℕ)
      → scan (b'/' ∷ rest) pos (at host a b c) ≡ scan rest (pos + 1) (at path a pos c)
  unfolding scan
  scan_path rest pos = ap (λ (p : ℕ). scan rest p (at path a pos c)) (omega arith)

  pub scan_port_path :
      (rest : List ℕ) (pos : ℕ)
      → scan (b'/' ∷ rest) pos (at port a b c) ≡ scan rest (pos + 1) (at path a b pos)
  unfolding scan
  scan_port_path rest pos = ap (λ (p : ℕ). scan rest p (at path a b pos)) (omega arith)
