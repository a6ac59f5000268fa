-- ===== src/Net/Tests.antt =====
-- The theorems on URIs at concrete texts.
use libcsics.Base.{
  ℕ, ◌+◌, ◌-◌, ◌*◌, ◌^◌, ◌≡◌, refl, List, [], ◌∷◌, ◌++◌, Option, none, some, length, arith,
}
use libcsics.Net.Uri.{ok, undefined, from}
use libcsics.Net.Uri.Parts.{Parts, print, located, IsPrinted, from-print}
use libcsics.Net.Uri.Errors.{from-no_host, from-no_scheme}

-- The numbers that the digits from the front stand for.
abbrev digits_from : ℕ → List ℕ → ℕ
digits_from n [] = n
digits_from n (d ∷ ds) = digits_from (10 * n + (d - b'0')) ds

-- `std::stoi` of digits.
abbrev stoi : List ℕ → Option ℕ
stoi [] = none
stoi (d ∷ ds) = some (digits_from 0 (d ∷ ds))

-- tcp://h1:80/a
abbrev broker : Parts
broker = record {
  scheme_name = b't' ∷ b'c' ∷ b'p' ∷ [];
  host_first = b'h';
  host_rest = b'1' ∷ [];
  port_digits = some (b'8' ∷ b'0' ∷ []);
  path_name = some (b'a' ∷ []);
}

broker-IsPrinted : IsPrinted stoi broker 80
broker-IsPrinted = record {
  scheme_stays = (refl, (refl, (refl, tt)));
  host_stays = (refl, tt);
  port_reads = (refl, omega arith, omega arith, (refl, (refl, tt)));
  small = omega arith;
}

from-print_example : from stoi (print broker) ≡ ok (located broker 80)
from-print_example = from-print stoi broker 80 broker-IsPrinted

from-no_host_example : from stoi ((b't' ∷ []) ++ (b':' ∷ b'/' ∷ b'/' ∷ [])) ≡ undefined
from-no_host_example = from-no_host stoi (b't' ∷ []) (refl, tt)

abbrev word : List ℕ
word = b't' ∷ []

from-no_scheme_example :
    from stoi word
    ≡ ok (record {
      uri = word;
      scheme_view = (0, length word);
      host_view = (length word + 3, 2 ^ 64 - 3);
      path_view = (0, 0);
      port_number = 0;
    })
from-no_scheme_example = from-no_scheme stoi word (refl, tt)
