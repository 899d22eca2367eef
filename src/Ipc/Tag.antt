-- ===== src/Ipc/Tag.antt =====
-- The bit fields of include/task/ipc/public/messages.hpp and include/memory/fpage.hpp: message
-- tags, acceptors, string, map and grant items, and flexible pages. A value is its raw word.
use Prim.Native.Nat.{bit_and, bit_or}
use project_dionysus.Base.{ℕ, ◌+◌, ◌-◌, ◌*◌, ◌/◌, ◌%◌, ◌^◌, ◌<◌, ◌≡◌, Bool, not, ◌==◌, arith}

-- A field of `width` bits from bit `low` on, of a word.
abbrev pub get_bits : ℕ → ℕ → ℕ → ℕ
get_bits low width w = w / 2 ^ low % 2 ^ width

-- The same word with that field replaced; a value too wide for the field is cut.
abbrev pub set_bits : ℕ → ℕ → ℕ → ℕ → ℕ
set_bits low width w v = w - w / 2 ^ low % 2 ^ width * 2 ^ low + v % 2 ^ width * 2 ^ low

-- message_tag: u_ 6, t_ 6, flags_ 4, label_ 48.
unfoldable pub untyped_count : ℕ → ℕ
untyped_count tag = get_bits 0 6 tag

unfoldable pub typed_count : ℕ → ℕ
typed_count tag = get_bits 6 6 tag

pub label : ℕ → ℕ
label tag = get_bits 16 48 tag

pub flags : ℕ → ℕ
flags tag = get_bits 12 4 tag

pub set_label : ℕ → ℕ → ℕ
set_label tag v = set_bits 16 48 tag v

pub set_flags : ℕ → ℕ → ℕ
set_flags tag v = set_bits 12 4 tag v

pub check_flags : ℕ → ℕ → Bool
unfolding flags
check_flags tag f = not (bit_and (flags tag) f == 0)

-- `++tag_.u_` and `tag_.t_++`, which wrap around in six bits.
pub count_untyped : ℕ → ℕ
unfolding untyped_count
count_untyped tag = set_bits 0 6 tag (untyped_count tag + 1)

pub count_typed : ℕ → ℕ
unfolding typed_count
count_typed tag = set_bits 6 6 tag (typed_count tag + 1)

unfoldable pub next_typed_pos : ℕ → ℕ
next_typed_pos tag = 1 + untyped_count tag + typed_count tag

-- message_acceptor: accept_map_grant_ 1, accept_strings_ 1, 2 unused, receive_window_ 60.
pub allow_map_or_grant : ℕ → Bool
allow_map_or_grant acceptor = not (get_bits 0 1 acceptor == 0)

pub allow_string : ℕ → Bool
allow_string acceptor = not (get_bits 1 1 acceptor == 0)

pub receive_window : ℕ → ℕ
receive_window acceptor = get_bits 4 60 acceptor

-- fpage: rights_ 4, s_ 6, b_div_1024_ 54.
pub fpage : ℕ → ℕ → ℕ → ℕ
fpage b s rights = rights % 2 ^ 4 + s % 2 ^ 6 * 2 ^ 4 + b / 2 ^ 10 % 2 ^ 54 * 2 ^ 10

pub check_rights : ℕ → ℕ → Bool
check_rights page rights = bit_and rights (get_bits 0 4 page) == rights

pub get_size : ℕ → ℕ
get_size page = 2 ^ get_bits 4 6 page

pub get_base_address : ℕ → ℕ
get_base_address page = get_bits 10 54 page * 2 ^ 10

-- AR_X, AR_W, AR_R and the shorthands.
abbrev pub ar_x : ℕ
ar_x = 1

abbrev pub ar_w : ℕ
ar_w = 2

abbrev pub ar_r : ℕ
ar_r = 4

abbrev pub ar_rx : ℕ
ar_rx = bit_or ar_x ar_x

abbrev pub ar_rw : ℕ
ar_rw = bit_or ar_x ar_w

abbrev pub ar_full : ℕ
ar_full = bit_or (bit_or ar_x ar_w) ar_x

-- The first words of a string item and of a map or grant item: type_ 4, 6 unused, 54 for the
-- length or the base.
pub string_length : ℕ → ℕ
string_length w = get_bits 10 54 w

pub send_base : ℕ → ℕ
send_base w = get_bits 10 54 w

-- Setting the label of a tag changes the label alone, and a label of 48 bits is read back.
pub set_label_fields :
    (tag v : ℕ)
    → tag < 2 ^ 64
    → (label (set_label tag v) ≡ v % 2 ^ 48)
      × (flags (set_label tag v) ≡ flags tag)
      × (typed_count (set_label tag v) ≡ typed_count tag)
      × (untyped_count (set_label tag v) ≡ untyped_count tag)
unfolding label set_label flags typed_count untyped_count
set_label_fields tag v h = (omega arith, omega arith, omega arith, omega arith)

set_flags_fields :
    (tag v : ℕ)
    → tag < 2 ^ 64
    → (flags (set_flags tag v) ≡ v % 2 ^ 4)
      × (label (set_flags tag v) ≡ label tag)
      × (typed_count (set_flags tag v) ≡ typed_count tag)
      × (untyped_count (set_flags tag v) ≡ untyped_count tag)
unfolding label set_flags flags typed_count untyped_count
set_flags_fields tag v h = (omega arith, omega arith, omega arith, omega arith)

pub count_untyped_fields :
    (tag : ℕ)
    → untyped_count tag < 63
    → (untyped_count (count_untyped tag) ≡ untyped_count tag + 1)
      × (typed_count (count_untyped tag) ≡ typed_count tag)
      × (flags (count_untyped tag) ≡ flags tag)
      × (label (count_untyped tag) ≡ label tag)
unfolding count_untyped label flags typed_count untyped_count
count_untyped_fields tag h = (omega arith, omega arith, omega arith, omega arith)

pub count_untyped_wraps : (tag : ℕ) → untyped_count tag ≡ 63 → untyped_count (count_untyped tag) ≡ 0
unfolding count_untyped untyped_count
count_untyped_wraps tag h = omega arith

pub count_typed_fields :
    (tag : ℕ)
    → typed_count tag < 63
    → (typed_count (count_typed tag) ≡ typed_count tag + 1)
      × (untyped_count (count_typed tag) ≡ untyped_count tag)
      × (flags (count_typed tag) ≡ flags tag)
      × (label (count_typed tag) ≡ label tag)
unfolding count_typed label flags typed_count untyped_count
count_typed_fields tag h = (omega arith, omega arith, omega arith, omega arith)

-- A tag is its four fields.
tag_of_fields :
    (tag : ℕ)
    → tag < 2 ^ 64
    → tag ≡ untyped_count tag + typed_count tag * 2 ^ 6 + flags tag * 2 ^ 12 + label tag * 2 ^ 16
unfolding label flags typed_count untyped_count
tag_of_fields tag h = omega arith

-- A flexible page reads back the rights, the size and the base that it was made of, the base cut
-- down to a multiple of 1024.
pub fpage_fields :
    (b s rights : ℕ)
    → b < 2 ^ 64
    → s < 2 ^ 6
    → rights < 2 ^ 4
    → (get_base_address (fpage b s rights) ≡ b - b % 2 ^ 10)
      × (get_size (fpage b s rights) ≡ 2 ^ s)
      × (get_bits 0 4 (fpage b s rights) ≡ rights)
unfolding fpage get_base_address get_size
fpage_fields b s rights hb hs hr =
    let size : get_bits 4 6 (fpage b s rights) ≡ s = omega arith in
    (omega arith, rw size, omega arith)

-- AR_FULL lacks AR_R: a page made with it does not pass the check for reading.
pub fpage_full_unreadable : (b s : ℕ) → check_rights (fpage b s ar_full) ar_r ≡ Bool.false
unfolding check_rights fpage
fpage_full_unreadable b s =
    let rights : get_bits 0 4 (fpage b s ar_full) ≡ 3 = omega arith in rw rights

pub typed_count-lt : (tag : ℕ) → typed_count tag < 64
unfolding typed_count
typed_count-lt tag = omega arith
