-- ===== src/Net/Uri/Parts.antt =====
-- What `URI::from` makes of a text that is put together from its parts.
use libcsics.Base.{
  ℕ, suc, ◌+◌, ◌-◌, ◌^◌, ◌%◌, ◌<◌, ◌≡◌, refl, sym, ap, ap₂, ◌∙◌, true, ◌||◌, not, List, [], ◌∷◌,
  ◌++◌, Option, none, some, ◌==◌, length, take, drop, arith, length-append, append_assoc,
  take-append, drop-append, ==_refl, ne→not-==,
}
use libcsics.Net.Uri.{
  ok, scheme, host, port, path, View, Uri, Cursor, ◌>>=◌, scan, read_port, path_of, finish, is_port,
  from,
}
use libcsics.Net.Uri.Scan.{
  Stays, at, scan-Stays, scan_end, scan-colon, scan_port, scan_path, scan_port_path,
}

pub record Parts : Type 0 where
  pub scheme_name : List ℕ
  pub host_first : ℕ
  pub host_rest : List ℕ
  pub port_digits : Option (List ℕ)
  pub path_name : Option (List ℕ)

abbrev port_text : Option (List ℕ) → List ℕ
port_text none = []
port_text (some digits) = b':' ∷ digits

abbrev path_text : Option (List ℕ) → List ℕ
path_text none = []
path_text (some name) = b'/' ∷ name

-- The scheme and the host.
abbrev front : Parts → List ℕ
front p = p.scheme_name ++ (b':' ∷ b'/' ∷ b'/' ∷ p.host_first ∷ p.host_rest)

-- scheme://host:port/path
abbrev pub print : Parts → List ℕ
print p = front p ++ (port_text p.port_digits ++ path_text p.path_name)

-- The path as it should be, and one byte more.
abbrev path_view : ℕ → Option (List ℕ) → View
path_view end none = (0, 0)
path_view end (some name) = (end - length name, length name + 1)

abbrev pub located : Parts → ℕ → Uri
located p n = record {
  uri = print p;
  scheme_view = (0, length p.scheme_name);
  host_view = (length p.scheme_name + 3, suc (length p.host_rest));
  path_view = path_view (length (print p)) p.path_name;
  port_number = n;
}

module _ (stoi : List ℕ → Option ℕ) where
  -- The digits are those of the port; without digits the port is zero.
  abbrev pub IsPort : Option (List ℕ) → ℕ → Type 0
  IsPort none n = n ≡ 0
  IsPort (some digits) n = (stoi digits ≡ some n) × (0 < n) × (n < 2 ^ 16) × Stays port digits

  -- No part has a byte that ends it, and the text can be counted.
  pub record IsPrinted (p : Parts) (n : ℕ) : Type 0 where
    pub scheme_stays : Stays scheme p.scheme_name
    pub host_stays : Stays host p.host_rest
    pub port_reads : IsPort p.port_digits n
    pub small : length (print p) < 2 ^ 63

  scan-front :
      (p : Parts) (tail : List ℕ) (e : ℕ)
      → Stays scheme p.scheme_name
      → Stays host p.host_rest
      → scan (front p ++ tail) 0 (at scheme e e e)
        ≡ scan tail (length (front p)) (at host (length p.scheme_name) e e)
  scan-front p tail e hs hh =
      ap (λ (text : List ℕ). scan text 0 (at scheme e e e))
        (append_assoc p.scheme_name (b':' ∷ b'/' ∷ b'/' ∷ p.host_first ∷ p.host_rest) tail)
      ∙ scan-Stays e e e scheme p.scheme_name _ 0 hs
      ∙ scan-colon e e e p.host_first (p.host_rest ++ tail) (0 + length p.scheme_name)
      ∙ scan-Stays (0 + length p.scheme_name) e e host p.host_rest tail
          (0 + length p.scheme_name + 4) hh
      ∙ ap₂ (λ (k a : ℕ). scan tail k (at host a e e))
          (omega
            (arith, length-append p.scheme_name (b':' ∷ b'/' ∷ b'/' ∷ p.host_first ∷ p.host_rest)))
          (omega arith)

  length-front : (p : Parts) → length (front p) ≡ length p.scheme_name + 4 + length p.host_rest
  length-front p =
      omega (arith, length-append p.scheme_name (b':' ∷ b'/' ∷ b'/' ∷ p.host_first ∷ p.host_rest))

  -- The views that are made from what the loop found.
  finish_lem :
      (p : Parts) (n : ℕ) (c : Cursor)
      → c.scheme_end ≡ length p.scheme_name
      → c.host_end ≡ length (front p)
      → length (front p) < 2 ^ 63
      → read_port stoi (print p) c ≡ ok n
      → path_of stoi (print p) c n ≡ path_view (length (print p)) p.path_name
      → finish stoi (print p) c ≡ ok (located p n)
  finish_lem p n c se he small port_eq path_eq = rw port_eq (
      ap (λ (u : Uri). ok u)
        (λ i. record {
          uri = print p;
          scheme_view = (0, se i);
          host_view = (se i + 3, size i);
          path_view = path_eq i;
          port_number = n;
        }))
    where
      size : (c.host_end + 2 ^ 64 - (c.scheme_end + 3)) % 2 ^ 64 ≡ suc (length p.host_rest)
      size = omega (arith, length-front p)

  from_lem :
      (p : Parts) (n : ℕ) (c : Cursor)
      → IsPrinted p n
      → scan
          (port_text p.port_digits ++ path_text p.path_name)
          (length (front p))
          (at host (length p.scheme_name) (length (print p)) (length (print p)))
        ≡ ok c
      → finish stoi (print p) c ≡ ok (located p n)
      → from stoi (print p) ≡ ok (located p n)
  unfolding from
  from_lem p n c h scanned finished =
      ap (λ r. r >>= finish stoi (print p))
        (scan-front p (port_text p.port_digits ++ path_text p.path_name) (length (print p))
            h.scheme_stays h.host_stays
          ∙ scanned)
      ∙ finished

  -- The digits are found again.
  digits_lem :
      (first digits rest : List ℕ) (k m : ℕ)
      → k ≡ length first + 1
      → m ≡ length digits
      → take m (drop k (first ++ ((b':' ∷ digits) ++ rest))) ≡ digits
  digits_lem first digits rest k m at_k at_m =
      ap (λ (xs : List ℕ). take m (drop k xs))
        (sym (append_assoc first (b':' ∷ []) (digits ++ rest)))
      ∙ ap (take m) (
          drop-append k (first ++ (b':' ∷ [])) (digits ++ rest)
            (omega (arith, length-append first (b':' ∷ []))))
      ∙ take-append m digits rest (sym at_m)

  all_path : (xs : List ℕ) → Stays path xs
  all_path [] = tt
  all_path (x ∷ xs) = (refl, all_path xs)

  abbrev parts : List ℕ → ℕ → List ℕ → Option (List ℕ) → Option (List ℕ) → Parts
  parts s x hs digits name = record {
    scheme_name = s;
    host_first = x;
    host_rest = hs;
    port_digits = digits;
    path_name = name;
  }

  read_port_digits :
      (text : List ℕ) (c : Cursor) (digits : List ℕ) (n : ℕ)
      → (not (c.port_end == length text) || is_port c.state) ≡ true
      → take (c.port_end - (c.host_end + 1)) (drop (c.host_end + 1) text) ≡ digits
      → stoi digits ≡ some n
      → n < 2 ^ 16
      → read_port stoi text c ≡ ok n
  read_port_digits text c digits n reads there is_n small =
      rw (reads, there, is_n) (ap (λ (k : ℕ). ok k) (omega arith))

  module _ (s : List ℕ) (x : ℕ) (hs : List ℕ) (n : ℕ) where
    length-print :
        (digits name : Option (List ℕ))
        → length (print (parts s x hs digits name))
          ≡ length (front (parts s x hs digits name))
            + length (port_text digits)
            + length (path_text name)
    length-print digits name = omega (
      arith,
      length-append (front (parts s x hs digits name)) (port_text digits ++ path_text name),
      length-append (port_text digits) (path_text name),
    )

    from_parts :
        (digits name : Option (List ℕ))
        → IsPrinted (parts s x hs digits name) n
        → from stoi (print (parts s x hs digits name)) ≡ ok (located (parts s x hs digits name) n)
    from_parts none none h =
        let p = parts s x hs none none in
        let e = length (print p) in
        let c = at host (length s) e e in
        from_lem p n c h (scan_end (length s) e e host [] (length (front p)) tt) (
          finish_lem p n c refl (omega (arith, length-print none none))
            (omega (arith, h.small, length-print none none))
            (rw (==_refl e) (ap (λ (k : ℕ). ok k) (sym h.port_reads))) refl)
    from_parts none (some name) h =
        let p = parts s x hs none (some name) in
        let e = length (print p) in
        let f = length (front p) in
        let c = at path (length s) f e in
        from_lem p n c h
          (scan_path (length s) e e name f
            ∙ scan_end (length s) f e path name (f + 1) (all_path name))
          (finish_lem p n c refl refl (omega (arith, h.small, length-print none (some name)))
            (rw (==_refl e) (ap (λ (k : ℕ). ok k) (sym h.port_reads)))
            (rw h.port_reads (
              ap₂ (λ (k m : ℕ). let v : View = (k, m) in v)
                (omega (arith, length-print none (some name)))
                (omega (arith, length-print none (some name))))))
    from_parts (some digits) none h =
        let p = parts s x hs (some digits) none in
        let e = length (print p) in
        let f = length (front p) in
        let c = at port (length s) f e in
        let (is_n, positive, few, stays) = h.port_reads in
        from_lem p n c h
          (scan_port (length s) e e (digits ++ []) f
            ∙ scan-Stays (length s) f e port digits [] (f + 1) stays
            ∙ scan_end (length s) f e port [] (f + 1 + length digits) tt)
          (finish_lem p n c refl refl (omega (arith, h.small, length-print (some digits) none))
            (read_port_digits (print p) c digits n (rw (==_refl e) refl)
              (digits_lem (front p) digits [] (f + 1) (e - (f + 1)) refl
                (omega (arith, length-print (some digits) none)))
              is_n few)
            refl)
    from_parts (some digits) (some name) h =
        let p = parts s x hs (some digits) (some name) in
        let e = length (print p) in
        let f = length (front p) in
        let q = f + 1 + length digits in
        let c = at path (length s) f q in
        let (is_n, positive, few, stays) = h.port_reads in
        let long = length-print (some digits) (some name) in
        from_lem p n c h
          (scan_port (length s) e e (digits ++ (b'/' ∷ name)) f
            ∙ scan-Stays (length s) f e port digits (b'/' ∷ name) (f + 1) stays
            ∙ scan_port_path (length s) f e name q
            ∙ scan_end (length s) f q path name (q + 1) (all_path name))
          (finish_lem p n c refl refl (omega (arith, h.small, long))
            (read_port_digits (print p) c digits n
              (rw (ne→not-== q e (λ bad. omega (arith, long))) refl)
              (digits_lem (front p) digits (b'/' ∷ name) (f + 1) (q - (f + 1)) refl (omega arith))
              is_n few)
            (rw (ne→not-== n 0 (λ bad. omega arith)) (
              ap₂ (λ (k m : ℕ). let v : View = (k, m) in v) (omega (arith, long))
                (omega (arith, long)))))

  -- A text that is put together from a scheme, a host, and perhaps a port other than zero and a path is
  -- parsed: the views of the scheme and the host are those parts, and the port is the number. The view
  -- of the path begins at the path and is one byte longer, so it ends behind the text.
  pub from-print : (p : Parts) (n : ℕ) → IsPrinted p n → from stoi (print p) ≡ ok (located p n)
  from-print p n h = from_parts p.scheme_name p.host_first p.host_rest n p.port_digits p.path_name h
