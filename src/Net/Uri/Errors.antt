-- ===== src/Net/Uri/Errors.antt =====
-- Texts that are no URI.
use libcsics.Base.{
  ℕ, ◌+◌, ◌-◌, ◌^◌, ◌≡◌, ap, ◌∙◌, List, [], ◌∷◌, ◌++◌, Option, length, arith, ==_refl,
}
use libcsics.Net.Uri.{ok, undefined, scheme, ◌>>=◌, scan, finish, from}
use libcsics.Net.Uri.Scan.{Stays, scan-Stays, scan_end}

module _ (stoi : List ℕ → Option ℕ) where
  -- A text that ends behind "://" sends the cursor past its end.
  pub from-no_host :
      (s : List ℕ) → Stays scheme s → from stoi (s ++ (b':' ∷ b'/' ∷ b'/' ∷ [])) ≡ undefined
  unfolding from scan
  from-no_host s stays =
      let text = s ++ (b':' ∷ b'/' ∷ b'/' ∷ []) in
      let e = length text in
      ap (λ r. r >>= finish stoi text) (scan-Stays e e e scheme s (b':' ∷ b'/' ∷ b'/' ∷ []) 0 stays)

  -- A text without a colon is taken for a URI: the whole of it is the scheme, and the host is a view
  -- that begins behind the end and has almost every size.
  pub from-no_scheme :
      (s : List ℕ)
      → Stays scheme s
      → from stoi s
        ≡ ok (record {
          uri = s;
          scheme_view = (0, length s);
          host_view = (length s + 3, 2 ^ 64 - 3);
          path_view = (0, 0);
          port_number = 0;
        })
  unfolding from
  from-no_scheme s stays =
      let e = length s in
      ap (λ r. r >>= finish stoi s) (scan_end e e e scheme s 0 stays)
      ∙ rw (==_refl e) (
          ap
            (λ (size : ℕ). ok (record {
              uri = s;
              scheme_view = (0, e);
              host_view = (e + 3, size);
              path_view = (0, 0);
              port_number = 0;
            }))
            (omega arith))
