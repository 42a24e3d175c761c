-- ===== src/Benchmark/Options/Range.antt =====
-- The numbers of parsed options are in the range of `positive_int`.
use xpact.Prelude.{
  ℕ, ◌≤◌, ◌≡◌, subst, inl, inr, String, Option, none, some, arith, Bool-cases, leb, ◌&&◌,
}
use xpact.Prelude.Int.{ℤ, pos, negsuc}
use xpact.Prelude.Outcome.{ok, >>=-eq-ok, ok_inj}
use xpact.Benchmark.Options.{
  Float, Options, Given, max_iterations, positive_int, int_or, float_or, timeout_of, parse_args,
}

abbrev pub InRange : ℕ → Type 0
InRange n = (1 ≤ n) × (n ≤ max_iterations)

positive_int-InRange : (value : ℤ) (n : ℕ) → positive_int value ≡ ok n → InRange n
unfolding positive_int
positive_int-InRange (negsuc m) n h = cc
positive_int-InRange (pos m) n h = elim (Bool-cases (leb 1 m && leb m max_iterations)) [
  | inl inside ↦ let same = ok_inj m n (rw inside at h) in ground (arith, inside, same)
  | inr outside ↦ absurd (cc (rw outside at h))
]

int_or-InRange :
    (default : ℕ) (value : Option ℤ) (n : ℕ)
    → InRange default
    → int_or default value ≡ ok n
    → InRange n
int_or-InRange default none n h e = subst InRange (ok_inj default n e) h
int_or-InRange default (some value) n h e = positive_int-InRange value n e

pub record IsParsed {F : Type 0} (options : Options F) : Type 0 where
  pub iterations : InRange options.iterations
  pub file_iterations : InRange options.file_iterations
  pub xml_iterations : InRange options.xml_iterations
  pub pairs : InRange options.pairs

pub parse_args-IsParsed :
    {F : Type 0} (float : Float F) (resolve : String → String) (default_dir : String)
    (given : Given F) (options : Options F)
    → parse_args float resolve default_dir given ≡ ok options
    → IsParsed options
unfolding parse_args
parse_args-IsParsed float resolve default_dir given options h =
    let (iterations, e1, h1) = >>=-eq-ok (int_or 10000 given.iterations) _ h in
    let (file_iterations, e2, h2) = >>=-eq-ok (int_or 1000 given.file_iterations) _ h1 in
    let (xml_iterations, e3, h3) = >>=-eq-ok (int_or 32 given.xml_iterations) _ h2 in
    let (pairs, e4, h4) = >>=-eq-ok (int_or 6 given.pairs) _ h3 in
    let (warmups, e5, h5) = >>=-eq-ok (int_or 2 given.warmups) _ h4 in
    let (seconds, e6, h6) = >>=-eq-ok (float_or float given.min_sample_seconds) _ h5 in
    let (timeout, e7, h7) = >>=-eq-ok (timeout_of given.timeout_seconds) _ h6 in
    subst IsParsed (ok_inj _ options h7) (record {
      iterations = int_or-InRange 10000 given.iterations iterations (omega arith) e1;
      file_iterations = int_or-InRange 1000 given.file_iterations file_iterations (omega arith) e2;
      xml_iterations = int_or-InRange 32 given.xml_iterations xml_iterations (omega arith) e3;
      pairs = int_or-InRange 6 given.pairs pairs (omega arith) e4;
    })
