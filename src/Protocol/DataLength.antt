-- ===== src/Protocol/DataLength.antt =====
-- The data length of a PUT request and the bytes of its data, as src/net/protocol.c reads them.
use xpipe.Base.{
  ℕ, zero, suc, ◌+◌, ◌-◌, ◌<◌, ◌^◌, ◌≡◌, refl, sym, ap, subst, arith, Ptr, List, [], ◌∷◌, length,
  word64, size_of_int,
}
use xpipe.Memory.{
  Mem, poke, Holds, Holds-poke_behind, poke_self, c_string_at, c_string_at-Holds, NoNul,
}
use xpipe.Xstring.{is_digit, atoi, int_of_positive}
use xpipe.Xstring.Integer.{Digits, numeral_value, print, atoi-Digits}
use xpipe.Protocol.Accept.{Each, crlf}
use xpipe.Protocol.{Scan, next, step_in, run, sw_data_len, sw_data_len_lf, sw_data}

pub Digits-Each : (ds : List ℕ) → Digits ds → Each is_digit (print ds)
unfolding print is_digit
Digits-Each [] d = tt
Digits-Each (x ∷ ds) d = (ground arith, Digits-Each ds d.1)

Digits-NoNul : (ds : List ℕ) → Digits ds → NoNul (print ds)
unfolding print
Digits-NoNul [] d = tt
Digits-NoNul (x ∷ ds) d = (omega arith, Digits-NoNul ds d.1)

length-print : (ds : List ℕ) → length (print ds) ≡ length ds
unfolding print
length-print [] = refl
length-print (x ∷ ds) = ap suc (length-print ds)

small_length : (v : ℕ) → v < 2 ^ 31 → size_of_int (int_of_positive v) ≡ v
small_length v h = ground arith

-- what the machine reads as the data length, once the CR behind the digits is overwritten
data_len_lem :
    (d : ℕ) (ds : List ℕ) (m : Mem) (q : Ptr)
    → Digits (d ∷ ds)
    → length (d ∷ ds) < word64
    → numeral_value 0 (d ∷ ds) < 2 ^ 31
    → Holds m q (print (d ∷ ds))
    → size_of_int (atoi (c_string_at (poke (q + length (print (d ∷ ds))) 0 m) q))
      ≡ numeral_value 0 (d ∷ ds)
data_len_lem d ds m q g l v h =
    let cut = poke (q + length (print (d ∷ ds))) 0 m in
    let text : c_string_at cut q ≡ print (d ∷ ds) =
      c_string_at-Holds cut q (print (d ∷ ds)) (rw length-print l) (Digits-NoNul (d ∷ ds) g)
        (Holds-poke_behind m _ 0 q (print (d ∷ ds)) (omega arith) h)
        (poke_self m (q + length (print (d ∷ ds))) 0) in
    rw (text, atoi-Digits d ds g) (small_length (numeral_value 0 (d ∷ ds)) v)

cr_lf :
    (v : ℕ) (buf p : Ptr) (s : Scan)
    → s.state ≡ sw_data_len
    → 0 < v
    → Holds s.mem p crlf
    → size_of_int (atoi (c_string_at (poke p 0 s.mem) s.pro.start)) ≡ v
    → run 2 buf p s
      ≡ next (record s {
        pro = record (s.pro) { end = p; data_len = v };
        state = sw_data_len_lf;
        data_len = v;
        mem = poke p 0 (poke p 0 s.mem);
      })
unfolding run step_in
cr_lf v buf p s e pos k r = let back : p + 1 - 1 ≡ p = omega arith in ground (arith, back)

-- CR LF behind the digits
pub run_length :
    (d : ℕ) (ds : List ℕ) (buf p : Ptr) (s : Scan)
    → s.state ≡ sw_data_len
    → p ≡ s.pro.start + length (print (d ∷ ds))
    → Digits (d ∷ ds)
    → length (d ∷ ds) < word64
    → 0 < numeral_value 0 (d ∷ ds)
    → numeral_value 0 (d ∷ ds) < 2 ^ 31
    → Holds s.mem s.pro.start (print (d ∷ ds))
    → Holds s.mem p crlf
    → run 2 buf p s
      ≡ next (record s {
        pro = record (s.pro) { end = p; data_len = numeral_value 0 (d ∷ ds) };
        state = sw_data_len_lf;
        data_len = numeral_value 0 (d ∷ ds);
        mem = poke p 0 (poke p 0 s.mem);
      })
unfolding run step_in
run_length d ds buf p s e at g l pos v h k =
    let back : p + 1 - 1 ≡ p = omega arith in
    let read : size_of_int (atoi (c_string_at (poke p 0 s.mem) s.pro.start))
        ≡ numeral_value 0 (d ∷ ds) =
      subst
        (λ z.
          size_of_int (atoi (c_string_at (poke z 0 s.mem) s.pro.start)) ≡ numeral_value 0 (d ∷ ds))
        (sym at) (data_len_lem d ds s.mem s.pro.start g l v h) in
    cr_lf (numeral_value 0 (d ∷ ds)) buf p s e pos k read

-- the bytes of the data behind the first
pub run_data :
    (n left : ℕ) (buf p : Ptr) (s : Scan)
    → s.state ≡ sw_data
    → s.data_len ≡ n + left
    → s.data_len < word64
    → run n buf p s ≡ next (record s { data_len = left })
unfolding run step_in
run_data zero left buf p s e k l = ground arith
run_data (suc n) left buf p s e k l =
    ground (arith, run_data n left buf (p + 1) (record s { data_len = n + left }))
