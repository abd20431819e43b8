-- ===== src/Storage/Private.antt =====
-- What a socket that passes has.
use llm_wiki_chrome.Prelude.{
  ℕ, ◌+◌, ◌*◌, ◌/◌, ◌%◌, ◌<◌, ◌≡◌, refl, ◌↔◌, Option, none, some, arith, ◌∙◌, ap,
}
use llm_wiki_chrome.Result.{ok}
use llm_wiki_chrome.Storage.Sockets.{
  Metadata, file_type, type_directory, type_socket, group_and_other, validate_private_socket,
}

-- The file is there and is the user's. Written out in octal, its mode has the digits of the type, one digit
-- for set-id and sticky, one digit for the owner, and two zeros, for the group and for the others.
pub record Private (user kind : ℕ) (given : Option Metadata) : Type 0 where
  pub file : Metadata
  pub there : given ≡ some file
  pub owned : file.uid ≡ user
  pub above : ℕ
  pub special : ℕ
  pub owner : ℕ
  pub special_digit : special < 8
  pub owner_digit : owner < 8
  pub digits : file.mode ≡ above * 65536 + kind * 4096 + special * 512 + owner * 64

from_bits :
    (user kind : ℕ) (m : Metadata)
    → m.uid ≡ user
    → file_type m.mode ≡ kind
    → group_and_other m.mode ≡ 0
    → Private user kind (some m)
from_bits user kind m owned typed closed = record {
  file = m;
  there = refl;
  owned = owned;
  above = m.mode / 65536;
  special = m.mode / 512 % 8;
  owner = m.mode / 64 % 8;
  special_digit = omega arith;
  owner_digit = omega arith;
  digits = omega arith;
}

to_bits :
    (user kind : ℕ) (m : Metadata)
    → kind < 16
    → Private user kind (some m)
    → (m.uid ≡ user) × (file_type m.mode ≡ kind) × (group_and_other m.mode ≡ 0)
to_bits user kind m small p =
    let same : m ≡ p.file = cc in
    let mode : m.mode ≡ p.above * 65536 + kind * 4096 + p.special * 512 + p.owner * 64 =
      ap (λ x. x.mode) same ∙ p.digits in
    (ap (λ x. x.uid) same ∙ p.owned, omega arith, omega arith)

passes-Private :
    (user : ℕ) (parent metadata : Option Metadata)
    → validate_private_socket user parent metadata ≡ ok tt
    → Private user type_directory parent × Private user type_socket metadata
unfolding validate_private_socket
passes-Private user (some parent) (some metadata) h = (
  from_bits user type_directory parent (ground arith) (ground arith) (ground arith),
  from_bits user type_socket metadata (ground arith) (ground arith) (ground arith),
)
passes-Private user none metadata h = absurd (cc)
passes-Private user (some parent) none h = absurd (cc)

Private-passes :
    (user : ℕ) (parent metadata : Option Metadata)
    → Private user type_directory parent × Private user type_socket metadata
    → validate_private_socket user parent metadata ≡ ok tt
unfolding validate_private_socket
Private-passes user (some parent) (some metadata) (p, m) = ground (
  arith,
  to_bits user type_directory parent (omega arith) p,
  to_bits user type_socket metadata (omega arith) m,
)
Private-passes user none metadata (p, m) = absurd (cc p.there)
Private-passes user (some parent) none (p, m) = absurd (cc m.there)

-- A socket passes exactly when its parent is there and is a directory and the socket is there and is a
-- socket, both of them the user's, with zero as the octal digits of the group and of the others in both modes.
pub validate_private_socket_iff :
    (user : ℕ) (parent metadata : Option Metadata)
    → (validate_private_socket user parent metadata ≡ ok tt)
      ↔ (Private user type_directory parent × Private user type_socket metadata)
validate_private_socket_iff user parent metadata =
    (passes-Private user parent metadata, Private-passes user parent metadata)
