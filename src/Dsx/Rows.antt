-- ===== src/Dsx/Rows.antt =====
-- The lines of print_code in A1/P2/dsx20.c, alone and behind parse_code.
use unh_cs.Common.{
  ℕ, zero, suc, ◌+◌, ◌-◌, ◌≤◌, ◌<◌, ◌≡◌, ◌↔◌, refl, ap, ◌∙◌, Bool, true, not, Option, some, List,
  [], ◌∷◌, lt→ltb, length, get_elem?, some_inj, arith,
}
use unh_cs.Common.Word.{sign_bit}
use unh_cs.Dsx.Parse.{parsed, is_marked, parse_code}
use unh_cs.Dsx.Reach.{Reached}
use unh_cs.Dsx.Bounds.{BranchesStay, parse_code-marks}
use unh_cs.Dsx.Object.{ObjectSymbol, print_symbols}
use unh_cs.Dsx.Print.{Row, print_word, is_data_word, print_rows, print_code}
use unh_cs.Dsx.Listing.{Listing, marks_of, rounds, list_code}

-- The rows from `pc` on, one for each word.
abbrev pub AreRows :
    (n pc : ℕ) → List ℕ → List ObjectSymbol → Option (List Bool) → List Row → Type 0
AreRows n pc ptr outs data_arr rows =
    (length rows ≡ n)
    × ((i w : ℕ)
        → i < n
        → get_elem? ptr i ≡ some w
        → get_elem? rows i ≡ some (print_word (is_data_word data_arr (pc + i)) outs (pc + i) w))

print_rows-AreRows :
    (n pc : ℕ) (ptr : List ℕ) (outs : List ObjectSymbol) (data_arr : Option (List Bool))
    → n ≤ length ptr
    → (rows : List Row) × (print_rows n pc ptr outs data_arr ≡ some rows)
      × AreRows n pc ptr outs data_arr rows
unfolding print_rows
print_rows-AreRows zero pc ptr outs data_arr le =
    ([], refl, (refl, λ i w lt e. absurd (omega (arith, lt))))
print_rows-AreRows (suc n) pc [] outs data_arr le = absurd (omega (arith, le))
print_rows-AreRows (suc n) pc (cur ∷ ptr) outs data_arr le =
    let (rows, e, (long, each)) =
      print_rows-AreRows n (pc + 1) ptr outs data_arr (omega (arith, le)) in
    (
      print_word (is_data_word data_arr pc) outs pc cur ∷ rows,
      rw e refl,
      (ap suc long, later rows each),
    )
  where
    later :
        (rows : List Row)
        → ((i w : ℕ)
            → i < n
            → get_elem? ptr i ≡ some w
            → get_elem? rows i
              ≡ some (print_word (is_data_word data_arr (pc + 1 + i)) outs (pc + 1 + i) w))
        → (i w : ℕ) → i < suc n
        → get_elem? (cur ∷ ptr) i ≡ some w
        → get_elem? (print_word (is_data_word data_arr pc) outs pc cur ∷ rows) i
          ≡ some (print_word (is_data_word data_arr (pc + i)) outs (pc + i) w)
    later rows each zero w lt at =
        ap (λ k. some (print_word (is_data_word data_arr k) outs k cur)) (omega arith)
        ∙ ap (λ x. some (print_word (is_data_word data_arr (pc + 0)) outs (pc + 0) x)) (some_inj at)
    later rows each (suc i) w lt at =
        each i w (omega (arith, lt)) at
        ∙ ap (λ k. some (print_word (is_data_word data_arr k) outs k w)) (omega arith)

-- Without marks or with them, print_code prints a line for each of the `n` words.
pub print_code-AreRows :
    (ptr : List ℕ) (n : ℕ) (outs : List ObjectSymbol) (data_arr : Option (List Bool))
    → n ≤ length ptr
    → (rows : List Row) × (print_code ptr n outs data_arr ≡ some rows)
      × AreRows n 0 ptr outs data_arr rows
unfolding print_code
print_code-AreRows ptr n outs data_arr le = print_rows-AreRows n 0 ptr outs data_arr le

marks_of_parsed :
    (ptr : List ℕ) (n : ℕ) {d : List Bool}
    → n < sign_bit - 1
    → parse_code ptr n ≡ parsed d
    → marks_of true ptr n ≡ some (some d)
unfolding marks_of
marks_of_parsed ptr n small e = rw (lt→ltb n (sign_bit - 1) small, e) refl

rounds_small : (n : ℕ) → n < sign_bit - 1 → rounds n ≡ n
rounds_small n small = rw (lt→ltb n sign_bit (omega (arith, small))) refl

-- With -r, on object code whose branches stay inside and symbols that can be printed, there is a
-- listing with one line for each word: the instruction where the code reaches the word, and a NOP
-- everywhere else.
pub list_code-Reached :
    (ptr : List ℕ) (n : ℕ) (insymbols outsymbols : List ObjectSymbol)
    {in_lines out_lines : List (List ℕ × ℕ)}
    → n < sign_bit - 1
    → BranchesStay ptr n
    → print_symbols insymbols ≡ some in_lines
    → print_symbols outsymbols ≡ some out_lines
    → (l : Listing) × (list_code true ptr n insymbols outsymbols ≡ some l)
      × (length l.rows ≡ n)
      × ((q w : ℕ)
          → q < n
          → get_elem? ptr q ≡ some w
          → (code : Bool) × (get_elem? l.rows q ≡ some (print_word (not code) outsymbols q w))
            × ((code ≡ true) ↔ Reached ptr n q))
unfolding list_code
list_code-Reached ptr n ins outs {in_lines} {out_lines} small ok ei eo =
    let (d, e, reached) = parse_code-marks ptr n ok in
    let (rows, er, (long, each)) = print_code-AreRows ptr n outs (some d) ok.whole in
    let l : Listing = record {
      insymbols = in_lines;
      outsymbols = out_lines;
      obj_len = n;
      rows = rows;
    } in
    (
      l,
      rw (ei, eo, marks_of_parsed ptr n small e, rounds_small n small, er) refl,
      long,
      λ q w lt at. (
        is_marked d q,
        each q w lt at ∙ ap (λ k. some (print_word (not (is_marked d k)) outs k w)) (omega arith),
        reached q,
      ),
    )
