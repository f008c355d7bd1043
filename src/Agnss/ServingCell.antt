-- ===== src/Agnss/ServingCell.antt =====
-- app/src/agnss.c: `serving_cell_info_get`, which reads the serving cell from the modem's texts.
use hologram_nrf9151_gps_tra.Common.{
  ℕ, zero, suc, ◌+◌, ◌-◌, ◌^◌, ◌<◌, ◌≡◌, refl, true, [], ◌∷◌, ◌++◌, ℤ, pos, negsuc, ok, is_neg,
  if◌then◌else◌, u32, arith, Bytes, List, length, take, strtol, fixed, all_digits, all_digits-fixed,
  strtol-fixed,
}

-- `struct lte_lc_cell`, as far as the code writes it.
pub record Cell : Type 0 where
  pub mcc : ℤ
  pub mnc : ℤ
  pub id : ℕ
  pub tac : ℕ
  pub rsrp : ℕ

-- The values of the modem's library that stand for an absent field.
pub record Sentinels : Type 0 where
  pub cell_id_max : ℕ
  pub rsrp_invalid : ℕ

-- The three calls of `modem_info_string_get`: the result of each, and the text that it writes. `stack`
-- is what the buffer holds before.
pub record CellAnswers : Type 0 where
  pub stack : Bytes
  pub id_err : ℤ
  pub id_text : Bytes
  pub area_err : ℤ
  pub area_text : Bytes
  pub operator_err : ℤ
  pub operator_text : Bytes

abbrev drop : ℕ → Bytes → Bytes
drop zero s = s
drop (suc n) [] = []
drop (suc n) (c ∷ s) = drop n s

-- A buffer read as a string, up to its NUL.
c_string : Bytes → Bytes
c_string [] = []
c_string (zero ∷ s) = []
c_string (suc c ∷ s) = suc c ∷ c_string s

-- A text and its NUL over the bytes of a buffer.
abbrev write : Bytes → Bytes → Bytes
write text buf = text ++ 0 ∷ drop (length text + 1) buf

-- A signed number kept in a `uint32_t`.
abbrev to_u32 : ℤ → ℕ
to_u32 (pos n) = u32 n
to_u32 (negsuc n) = 4294967295 - u32 n

unfoldable pub serving_cell_info_get : Sentinels → CellAnswers → Cell → ℤ × Cell
unfolding strtol c_string
serving_cell_info_get n a cell =
    let blank = record cell { id = n.cell_id_max; rsrp = n.rsrp_invalid } in
    let resp1 = write a.id_text a.stack in
    let with_id = record blank { id = to_u32 (strtol 16 (c_string resp1)) } in
    let resp2 = write a.area_text resp1 in
    let with_area = record with_id { tac = to_u32 (strtol 16 (c_string resp2)) } in
    let resp3 = write a.operator_text resp2 in
    let with_mnc = record with_area { mnc = strtol 10 (c_string (drop 3 resp3)) } in
    let resp4 = take 3 resp3 ++ 0 ∷ drop 4 resp3 in
    let with_mcc = record with_mnc { mcc = strtol 10 (c_string resp4) } in
    if is_neg a.id_err
    then (a.id_err, blank)
    else if is_neg a.area_err
    then (a.area_err, with_id)
    else if is_neg a.operator_err
    then (a.operator_err, with_area)
    else (ok, with_mcc)

c_string-digits : (xs s : Bytes) → all_digits 16 xs ≡ true → c_string (xs ++ 0 ∷ s) ≡ xs
unfolding c_string
c_string-digits [] s e = refl
c_string-digits (zero ∷ xs) s e = ground arith
c_string-digits (suc c ∷ xs) s e = ground (arith, c_string-digits xs s)

-- Decimal digits are hexadecimal ones.
all_digits-wider : (xs : Bytes) → all_digits 10 xs ≡ true → all_digits 16 xs ≡ true
all_digits-wider [] e = refl
all_digits-wider (c ∷ xs) e = ground (arith, all_digits-wider xs)

read_hex :
    (w n : ℕ) (s : Bytes)
    → n < 16 ^ w
    → n < 2147483648
    → to_u32 (strtol 16 (c_string (fixed 16 w n ++ 0 ∷ s))) ≡ n
read_hex w n s h b = ground (
  arith,
  c_string-digits (fixed 16 w n) s (all_digits-fixed 16 (omega arith) (omega arith) w n),
  strtol-fixed 16 (omega arith) (omega arith) w n h b,
)

read_decimal :
    (w n : ℕ) (s : Bytes)
    → n < 10 ^ w
    → n < 2147483648
    → strtol 10 (c_string (fixed 10 w n ++ 0 ∷ s)) ≡ pos n
read_decimal w n s h b = ground (
  arith,
  c_string-digits (fixed 10 w n) s
      (all_digits-wider (fixed 10 w n) (all_digits-fixed 10 (omega arith) (omega arith) w n)),
  strtol-fixed 10 (omega arith) (omega arith) w n h b,
)

module _ (k mcc mnc : ℕ) (s t : Bytes) where
  read_mnc :
      mnc < 10 ^ k
      → mnc < 1000
      → strtol 10 (c_string (drop 3 ((fixed 10 3 mcc ++ fixed 10 k mnc) ++ 0 ∷ s))) ≡ pos mnc
  unfolding fixed
  read_mnc h b = read_decimal k mnc s h (omega arith)

  read_mcc :
      mcc < 1000
      → strtol 10 (c_string (take 3 ((fixed 10 3 mcc ++ fixed 10 k mnc) ++ s) ++ 0 ∷ t)) ≡ pos mcc
  unfolding fixed
  read_mcc h = read_decimal 3 mcc t h (omega arith)

cell_equal :
    {mcc mcc' mnc mnc' : ℤ} {id id' tac tac' : ℕ} (rsrp : ℕ)
    → mcc ≡ mcc'
    → mnc ≡ mnc'
    → id ≡ id'
    → tac ≡ tac'
    → let c : Cell = record { mcc = mcc; mnc = mnc; id = id; tac = tac; rsrp = rsrp } in
      let d : Cell = record { mcc = mcc'; mnc = mnc'; id = id'; tac = tac'; rsrp = rsrp } in
      ◌≡◌ {A = ℤ × Cell} (ok, c) (ok, d)
cell_equal rsrp c n i t = cc

-- The texts that the modem writes for a cell: its identity with eight hexadecimal digits, its area
-- with four, the country with three decimal digits and the network with `k`.
abbrev pub modem_texts : (stack : Bytes) (k id tac mcc mnc : ℕ) → CellAnswers
modem_texts stack k id tac mcc mnc = record {
  stack = stack;
  id_err = pos 8;
  id_text = fixed 16 8 id;
  area_err = pos 4;
  area_text = fixed 16 4 tac;
  operator_err = pos (3 + k);
  operator_text = fixed 10 3 mcc ++ fixed 10 k mnc;
}

-- A cell that the modem prints is read back.
pub serving_cell-modem_texts :
    (n : Sentinels) (stack : Bytes) (k id tac mcc mnc : ℕ) (cell : Cell)
    → id < 268435456
    → tac < 65536
    → mcc < 1000
    → mnc < 10 ^ k
    → mnc < 1000
    → serving_cell_info_get n (modem_texts stack k id tac mcc mnc) cell
      ≡ (ok, record { mcc = pos mcc; mnc = pos mnc; id = id; tac = tac; rsrp = n.rsrp_invalid })
unfolding serving_cell_info_get
serving_cell-modem_texts n stack k id tac mcc mnc cell hi ht hc hm hn =
    cell_equal n.rsrp_invalid (read_mcc k mcc mnc _ _ hc) (read_mnc k mcc mnc _ [] hm hn)
      (read_hex 8 id _ (omega arith) (omega arith)) (read_hex 4 tac _ ht (omega arith))

-- The first result that reports an error, or 0.
abbrev first_error : List ℤ → ℤ
first_error [] = ok
first_error (e ∷ es) = if is_neg e then e else first_error es

pub serving_cell_outcome :
    (n : Sentinels) (a : CellAnswers) (cell : Cell)
    → let (err, c) = serving_cell_info_get n a cell in
      (err ≡ first_error (a.id_err ∷ a.area_err ∷ a.operator_err ∷ []))
      × (c.rsrp ≡ n.rsrp_invalid)
      × (is_neg a.id_err ≡ true → c.id ≡ n.cell_id_max)
unfolding serving_cell_info_get
serving_cell_outcome n a cell = ground arith
