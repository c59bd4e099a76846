-- ===== src/Tests/Host.antt =====
-- A server that meets what Iis.antt asks for: it gives one byte of the body at a time, and keeps
-- what is written. While it is slow, all its operations complete later.
use iis_asgi_handler.Prelude.{
  ℕ, ◌<◌, ◌≤◌, ◌≡◌, refl, Bool, true, false, [], ◌∷◌, ◌++◌, Bytes, length, arith,
}
use iis_asgi_handler.Iis.{Iis, Lawful, Read, failed}

pub record Memory : Type 0 where
  pub entity : Bytes
  pub written : Bytes
  pub slow : Bool

-- ERROR_HANDLE_EOF as an HRESULT.
abbrev pub eof : ℕ
eof = 0x80070026

abbrev pub read_one : Bool → Bytes → Memory → Read × Memory
read_one slow [] m = (record { hr = eof; bytes = []; completion_expected = false }, m)
read_one true (b ∷ bs) m = (record { hr = 0; bytes = []; completion_expected = true }, m)
read_one false (b ∷ bs) m =
    (record { hr = 0; bytes = b ∷ []; completion_expected = false }, record m { entity = bs })

abbrev pub memory : Iis
memory = record {
  World = Memory;
  remaining_entity_bytes = λ m. length m.entity;
  read_entity_body = λ size m. read_one m.slow m.entity m;
  clear = λ m. record m { written = [] };
  set_status = λ s m. m;
  set_header = λ n v m. m;
  write_entity_chunks = λ chunk m. (
    record { hr = 0; num_bytes = 0; completion_expected = m.slow },
    record m { written = m.written ++ chunk },
  );
  flush = λ m. (record { hr = 0; num_bytes = 0; completion_expected = m.slow }, m);
}

pub read_one_some :
    (slow : Bool) (bs : Bytes) (size : ℕ) (m : Memory)
    → m.entity ≡ bs
    → 0 < size
    → failed (read_one slow bs m).0.hr ≡ false
    → (read_one slow bs m).0.completion_expected ≡ false
    → (0 < length (read_one slow bs m).0.bytes)
      × (length (read_one slow bs m).0.bytes ≤ size)
      × (m.entity ≡ (read_one slow bs m).0.bytes ++ (read_one slow bs m).1.entity)
read_one_some slow [] size m e pos good now = absurd (cc)
read_one_some true (b ∷ bs) size m e pos good now = absurd (cc)
read_one_some false (b ∷ bs) size m e pos good now = (omega arith, omega arith, e)

pub read_one_pending :
    (slow : Bool) (bs : Bytes) (m : Memory)
    → (read_one slow bs m).0.completion_expected ≡ true
    → (read_one slow bs m).1.entity ≡ m.entity
read_one_pending slow [] m e = refl
read_one_pending true (b ∷ bs) m e = refl
read_one_pending false (b ∷ bs) m e = absurd (cc)

pub read_one_written :
    (slow : Bool) (bs : Bytes) (m : Memory) → (read_one slow bs m).1.written ≡ m.written
read_one_written slow [] m = refl
read_one_written true (b ∷ bs) m = refl
read_one_written false (b ∷ bs) m = refl

abbrev pub memory_lawful : Lawful memory
memory_lawful = record {
  entity = λ m. m.entity;
  written = λ m. m.written;
  remaining = λ m. refl;
  read_some = λ size m pos good now. read_one_some m.slow m.entity size m refl pos good now;
  read_pending = λ size m e. read_one_pending m.slow m.entity m e;
  written-read = λ size m. read_one_written m.slow m.entity m;
  written-set_status = λ s m. refl;
  written-set_header = λ n v m. refl;
  written-flush = λ m. refl;
  written-write = λ chunk m f. refl;
}
