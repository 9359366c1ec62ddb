-- ===== src/Base/TimeZone/Reading/Layout.antt =====
-- The layout of a file of the second version, as RFC 8536 has it, and that Base/TimeZone/Reading
-- reads back what it lays out.
use czy_net_frame.Common.{
  ℕ, ◌+◌, ◌*◌, ◌≤◌, ◌<◌, ◌≡◌, refl, ap, ap₂, ◌∙◌, true, some, List, [], ◌∷◌, ◌++◌, arith,
  if◌then◌else◌, length, ◌>>=◌, done, undefined, pos_part, neg_part, ◌+ℤ◌, ◌*ℤ◌, +ℤ_parts, *ℤ_parts,
  eq_of_parts, is_int, is_int-small, *ℤ-le, pos,
}
use czy_net_frame.Base.TimeZone.{Data, no_data}
use czy_net_frame.Base.TimeZone.File.{File, read_bytes}
use czy_net_frame.Base.TimeZone.Bytes.{advance, At, advance-At, skip-pos, read_exactly-At}
use czy_net_frame.Base.TimeZone.Reading.{
  Counts, are_readable, read_data_block, tzif, check_head, block_size, int_product, read_second,
  read_header, catch_logic_error, read_time_zone_file, load_zone_file,
}
use czy_net_frame.Base.TimeZone.Reading.Format.{before, read_counts-At, AreInts}
use czy_net_frame.Base.TimeZone.Reading.Tables.{IsLaidOut, counts_of, tables, read_tables-tables}

-- A file: a first block of any content that its counters give the size of, then this one.
pub file_of : List ℕ → Counts → List ℕ → List ℕ → Data → List ℕ
unfolding tables
file_of reserved first body header z =
    tzif
    ++ ((50 ∷ [])
        ++ (reserved
            ++ before first (body ++ (tzif ++ (header ++ before (counts_of z) (tables z))))))

-- The bytes of the first block, by RFC 8536.
abbrev pub bytes_by_counts : Counts → ℕ
bytes_by_counts c =
    pos_part c.timecnt * 4
    + pos_part c.timecnt
    + pos_part c.typecnt * 6
    + pos_part c.charcnt
    + pos_part c.leapcnt * 8
    + pos_part c.isstdcnt
    + pos_part c.isutccnt

pub record IsFirstBlock (reserved : List ℕ) (first : Counts) (body header : List ℕ) : Type 0 where
  pub reserved_size : 15 ≡ length reserved
  pub header_size : 16 ≡ length header
  pub ints : AreInts first
  pub natural :
      neg_part first.timecnt
        + neg_part first.typecnt
        + neg_part first.charcnt
        + neg_part first.leapcnt
        + neg_part first.isstdcnt
        + neg_part first.isutccnt
      ≡ 0
  pub few_types : pos_part first.typecnt ≤ 357913941
  pub few_leaps : pos_part first.leapcnt < 268435456
  pub body_size : length body ≡ bytes_by_counts first

block_size-bytes_by_counts :
    (c : Counts) (n : ℕ)
    → neg_part c.timecnt
        + neg_part c.typecnt
        + neg_part c.charcnt
        + neg_part c.leapcnt
        + neg_part c.isstdcnt
        + neg_part c.isutccnt
      ≡ 0
    → n ≡ bytes_by_counts c
    → pos_part c.typecnt ≤ 357913941
    → pos_part c.leapcnt < 268435456
    → block_size c ≡ done (pos n)
unfolding block_size int_product
block_size-bytes_by_counts c n natural e few_types few_leaps =
    let a = c.timecnt *ℤ 4 in
    let b = a +ℤ c.timecnt in
    let d = c.typecnt *ℤ 6 in
    let g = b +ℤ d in
    let h = g +ℤ c.charcnt in
    let l = c.leapcnt *ℤ 8 in
    let m = h +ℤ l in
    let o = m +ℤ c.isstdcnt in
    let types_fit : is_int d ≡ true =
      is_int-small d (omega (arith, few_types, natural, *ℤ-le c.typecnt 6))
        (omega (arith, natural, *ℤ-le c.typecnt 6)) in
    let leaps_fit : is_int l ≡ true =
      is_int-small l (omega (arith, few_leaps, natural, *ℤ-le c.leapcnt 8))
        (omega (arith, natural, *ℤ-le c.leapcnt 8)) in
    ap₂
      (λ u v. (if u then done d else undefined) >>= λ types.
        (if v then done l else undefined) >>= λ leaps.
        done (b +ℤ types +ℤ c.charcnt +ℤ leaps +ℤ c.isstdcnt +ℤ c.isutccnt))
      types_fit leaps_fit
    ∙ ap done (
        eq_of_parts _ _ (
          omega (
            arith,
            natural,
            e,
            *ℤ_parts c.timecnt 4,
            +ℤ_parts a c.timecnt,
            *ℤ_parts c.typecnt 6,
            +ℤ_parts b d,
            +ℤ_parts g c.charcnt,
            *ℤ_parts c.leapcnt 8,
            +ℤ_parts h l,
            +ℤ_parts m c.isstdcnt,
            +ℤ_parts o c.isutccnt,
          )))

are_readable-counts_of : (z : Data) → are_readable (counts_of z) ≡ true
unfolding are_readable
are_readable-counts_of z = refl

AreInts-counts_of : (z : Data) → IsLaidOut z → AreInts (counts_of z)
AreInts-counts_of z h = omega (arith, h.few)

read_second-tables :
    (z : Data) (f : File) (header : List ℕ)
    → IsLaidOut z
    → 16 ≡ length header
    → At f (tzif ++ (header ++ before (counts_of z) (tables z)))
    → read_second no_data f ≡ done (some z)
unfolding read_second read_bytes check_head read_data_block
read_second-tables z f header h size at =
    let r0 = read_exactly-At 4 f tzif _ refl at in
    let a0 = advance-At 4 f tzif _ refl at in
    let a1 = advance-At 16 (advance 4 f) header _ size a0 in
    let r1 =
      read_counts-At (counts_of z) (advance 16 (advance 4 f)) (tables z) (AreInts-counts_of z h)
        a1 in
    rw (r0, skip-pos 16 (advance 4 f), r1.1, are_readable-counts_of z)
      (read_tables-tables z r1.0 h r1.2)

read_header-file_of :
    (reserved : List ℕ) (first : Counts) (body header : List ℕ) (z : Data) (f : File)
    → IsFirstBlock reserved first body header
    → IsLaidOut z
    → At f (file_of reserved first body header z)
    → read_header no_data f ≡ done (some z)
unfolding file_of read_header read_bytes check_head
read_header-file_of reserved first body header z f b h at =
    let r0 = read_exactly-At 4 f tzif _ refl at in
    let a0 = advance-At 4 f tzif _ refl at in
    let r1 = read_exactly-At 1 (advance 4 f) (50 ∷ []) _ refl a0 in
    let a1 = advance-At 1 (advance 4 f) (50 ∷ []) _ refl a0 in
    let r2 = read_exactly-At 15 (advance 1 (advance 4 f)) reserved _ b.reserved_size a1 in
    let a2 = advance-At 15 (advance 1 (advance 4 f)) reserved _ b.reserved_size a1 in
    let r3 = read_counts-At first (advance 15 (advance 1 (advance 4 f))) _ b.ints a2 in
    let a3 = advance-At (length body) r3.0 body _ refl r3.2 in
    rw
      (
        r0,
        r1,
        r2,
        r3.1,
        block_size-bytes_by_counts first (length body) b.natural b.body_size b.few_types
            b.few_leaps,
        skip-pos (length body) r3.0,
      )
      (read_second-tables z (advance (length body) r3.0) header h b.header_size a3)

pub load_zone_file-file_of :
    (reserved : List ℕ) (first : Counts) (body header : List ℕ) (z : Data)
    → IsFirstBlock reserved first body header
    → IsLaidOut z
    → load_zone_file (some (file_of reserved first body header z)) ≡ done (some z)
unfolding load_zone_file read_time_zone_file catch_logic_error
load_zone_file-file_of reserved first body header z b h = ap catch_logic_error (
    read_header-file_of reserved first body header z
      (record { bytes = file_of reserved first body header z; position = 0 }) b h refl)
