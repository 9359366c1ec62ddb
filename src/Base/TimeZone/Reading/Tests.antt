-- ===== src/Base/TimeZone/Reading/Tests.antt =====
-- A file of a zone, given to the theorems on the reader of src/base/TimeZone.cc.
use czy_net_frame.Common.{ℕ, ◌≡◌, refl, some, List, [], ◌∷◌, arith, replicate, done, ◌+ℤ◌, pos}
use czy_net_frame.Base.TimeZone.{no_data}
use czy_net_frame.Base.TimeZone.Tests.{shanghai, standard, summer}
use czy_net_frame.Base.TimeZone.Reading.{Counts, load_zone_file}
use czy_net_frame.Base.TimeZone.Reading.Tables.{IsLaidOut}
use czy_net_frame.Base.TimeZone.Reading.Layout.{file_of, IsFirstBlock, load_zone_file-file_of}
use czy_net_frame.Base.TimeZone.Reading.Indices.{IsIndexed, load_zone_file-IsIndexed}

-- A first block with one type and an abbreviation of four characters.
abbrev first : Counts
first = record {
  isutccnt = pos 0;
  isstdcnt = pos 0;
  leapcnt = pos 0;
  timecnt = pos 0;
  typecnt = pos 1;
  charcnt = pos 4;
}

abbrev body : List ℕ
body = 0 ∷ 0 ∷ 112 ∷ 128 ∷ 0 ∷ 0 ∷ 67 ∷ 83 ∷ 84 ∷ 0 ∷ []

abbrev reserved : List ℕ
reserved = replicate 15 0

abbrev header : List ℕ
header = 50 ∷ replicate 15 0

first-IsFirstBlock : IsFirstBlock reserved first body header
first-IsFirstBlock = record {
  reserved_size = refl;
  header_size = refl;
  ints = omega arith;
  natural = refl;
  few_types = omega arith;
  few_leaps = omega arith;
  body_size = refl;
}

shanghai-IsLaidOut : IsLaidOut shanghai
unfolding ◌+ℤ◌
shanghai-IsLaidOut = record {
  times = omega arith;
  offsets = omega arith;
  consistent = (
    (summer, refl, refl),
    ((standard, refl, refl), ((summer, refl, refl), ((standard, refl, refl), tt))),
  );
  few = omega arith;
}

load_zone_file-IsIndexed_example : IsIndexed shanghai
load_zone_file-IsIndexed_example =
    load_zone_file-IsIndexed (some (file_of reserved first body header shanghai)) shanghai (
      load_zone_file-file_of reserved first body header shanghai first-IsFirstBlock
        shanghai-IsLaidOut)

-- A file without a type of local time is read as well.
no_types : load_zone_file (some (file_of reserved first body header no_data)) ≡ done (some no_data)
no_types =
    load_zone_file-file_of reserved first body header no_data first-IsFirstBlock
      (record { times = tt; offsets = tt; consistent = tt; few = omega arith })
