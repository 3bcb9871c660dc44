-- ===== src/Rpc/Codec/StandIns.antt =====
-- Small stand-ins for what is outside the codec: a number is one byte, frames are the bytes
-- themselves, a fork's context bytes end in its number.
use consentry.Common.{
  ℕ, ◌+◌, ◌/◌, ◌≡◌, refl, sym, ap, Bool, if◌then◌else◌, leb, le→leb, ◌==◌, List, [], ◌∷◌, ◌++◌,
  length, length-append, Option, none, some, arith,
}
use consentry.Common.Result.{Result, ok, err}
use consentry.Common.Text.{Text, codes}
use consentry.Common.Slices.{take, take-length}
use consentry.Rpc.Methods.{StatusMessage, OldBlocksByRangeRequest}
use consentry.Rpc.Codec.{
  Bytes, IoError, ForkName, Ssz, Varint, Snappy, ForkContext, Formats, Sizes, Outside,
}

abbrev pub read_number : Bytes → Result IoError (Option (ℕ × Bytes))
read_number [] = ok none
read_number (n ∷ rest) = ok (some (n, rest))

pub read_number-append :
    (s more : Bytes) (n : ℕ) (rest : Bytes)
    → read_number s ≡ ok (some (n, rest))
    → read_number (s ++ more) ≡ ok (some (n, rest ++ more))
read_number-append [] more n rest h = cc
read_number-append (x ∷ s) more n rest h = grind arith

abbrev pub one_byte : Varint
one_byte = record {
  encode = λ n. ok (n ∷ []);
  decode = read_number;
  decode-nil = refl;
  decode-encode = λ n h. (n ∷ [], refl, λ rest. refl);
  decode-append = read_number-append;
}

abbrev pub read_bytes : Bytes → ℕ → Result IoError Bytes × ℕ
read_bytes input n =
    if leb n (length input)
    then (ok (take n input), n)
    else (err (IoError.unexpected_eof (codes "corrupt input")), length input)

pub read_bytes-append : (s rest : Bytes) → read_bytes (s ++ rest) (length s) ≡ (ok s, length s)
read_bytes-append s rest =
    rw
      (
        le→leb (length s) (length (s ++ rest)) (omega (arith, length-append s rest)),
        take-length s rest,
      )
      refl

pub read_bytes-eof :
    (input : Bytes) (n position : ℕ) (e : Text)
    → read_bytes input n ≡ (err (IoError.unexpected_eof e), position)
    → position ≡ length input
read_bytes-eof input n position e h = ground arith

abbrev pub uncompressed : Snappy
uncompressed = record {
  compress = λ s. ok s;
  read_exact = read_bytes;
  max_compress_len = λ n. 32 + n + n / 6;
  read_exact-compress = λ s h. (s, refl, omega arith, read_bytes-append s);
  read_exact-eof = read_bytes-eof;
}

abbrev pub context_of : ForkName → Option Bytes
context_of ForkName.base = some (0 ∷ 0 ∷ 0 ∷ 0 ∷ [])
context_of ForkName.altair = some (0 ∷ 0 ∷ 0 ∷ 1 ∷ [])
context_of ForkName.merge = some (0 ∷ 0 ∷ 0 ∷ 2 ∷ [])
context_of ForkName.capella = none

abbrev pub fork_of_context : Bytes → Option ForkName
fork_of_context (_ ∷ _ ∷ _ ∷ k ∷ []) =
    if k == 0
    then some ForkName.base
    else if k == 1
    then some ForkName.altair
    else if k == 2
    then some ForkName.merge
    else none
fork_of_context _ = none

pub context_of-length :
    (f : ForkName) (bytes : Bytes)
    → context_of f ≡ some bytes
    → (length bytes ≡ 4) × (fork_of_context bytes ≡ some f)
context_of-length ForkName.base bytes h = (grind arith, grind arith)
context_of-length ForkName.altair bytes h = (grind arith, grind arith)
context_of-length ForkName.merge bytes h = (grind arith, grind arith)
context_of-length ForkName.capella bytes h = cc

abbrev pub merged : ForkContext
merged = record {
  current_fork = ForkName.merge;
  to_context_bytes = context_of;
  from_context_bytes = fork_of_context;
  genesis_context_bytes = 0 ∷ 0 ∷ 0 ∷ 0 ∷ [];
  from-to = context_of-length;
  to-base = refl;
}

abbrev pub number_of : Bytes → Result ℕ ℕ
number_of (n ∷ []) = ok n
number_of _ = err 0

abbrev pub number : Ssz ℕ
number = record {
  as_ssz_bytes = λ n. n ∷ [];
  from_ssz_bytes = number_of;
  Fits = λ n. Unit;
  from-as = λ n h. refl;
}

abbrev pub numbers : Ssz (List ℕ)
numbers = record {
  as_ssz_bytes = λ s. s;
  from_ssz_bytes = λ s. ok s;
  Fits = λ s. Unit;
  from-as = λ s h. refl;
}

abbrev pub status_bytes : StatusMessage → Bytes
status_bytes m = m.finalized_root ∷ m.finalized_epoch ∷ m.head_root ∷ m.head_slot ∷ m.fork_digest

abbrev pub status_of : Bytes → Result ℕ StatusMessage
status_of (a ∷ b ∷ c ∷ d ∷ digest) = ok (record {
  fork_digest = digest;
  finalized_root = a;
  finalized_epoch = b;
  head_root = c;
  head_slot = d;
})
status_of _ = err 0

abbrev pub range_of : Bytes → Result ℕ OldBlocksByRangeRequest
range_of (a ∷ b ∷ c ∷ []) = ok (record { start_slot = a; count = b; step = c })
range_of _ = err 0

-- Metadata without subnets.
abbrev pub meta_v1_of : Bytes → Result ℕ (ℕ × List Bool)
meta_v1_of (n ∷ []) = ok (n, [])
meta_v1_of _ = err 0

abbrev pub meta_v2_of : Bytes → Result ℕ (ℕ × List Bool × List Bool)
meta_v2_of (n ∷ []) = ok (n, [], [])
meta_v2_of _ = err 0

abbrev pub TestBlock : Type 0
TestBlock = ForkName × ℕ

abbrev pub block_from : ForkName → Bytes → Result ℕ TestBlock
block_from f (n ∷ []) = ok (f, n)
block_from f _ = err 0

abbrev pub formats : Formats TestBlock
formats = record {
  status_message = record {
    as_ssz_bytes = status_bytes;
    from_ssz_bytes = status_of;
    Fits = λ m. Unit;
    from-as = λ m h. refl;
  };
  u64_number = number;
  range_request = record {
    as_ssz_bytes = λ r. r.start_slot ∷ r.count ∷ r.step ∷ [];
    from_ssz_bytes = range_of;
    Fits = λ r. Unit;
    from-as = λ r h. refl;
  };
  block_roots = numbers;
  meta_data_v1 = record {
    as_ssz_bytes = λ m. m.0 ∷ [];
    from_ssz_bytes = meta_v1_of;
    Fits = λ m. m.1 ≡ [];
    from-as = λ m h. ap (λ a. ok (m.0, a)) (sym h);
  };
  meta_data_v2 = record {
    as_ssz_bytes = λ m. m.0 ∷ [];
    from_ssz_bytes = meta_v2_of;
    Fits = λ m. ([] ≡ m.1) × ([] ≡ m.2);
    from-as = λ m h. λ i. ok (m.0, h.0 i, h.1 i);
  };
  default_syncnets = [];
  error_type = numbers;
  ping_as_ssz_bytes = λ p. p.«data» ∷ [];
  ping-number = λ p. refl;
  fork_of = λ b. b.0;
  block_of = λ f. record {
    as_ssz_bytes = λ b. b.1 ∷ [];
    from_ssz_bytes = block_from f;
    Fits = λ b. f ≡ b.0;
    from-as = λ b h. ap (λ g. ok (g, b.1)) h;
  };
}

abbrev pub sizes : Sizes
sizes = record {
  status_len = 8;
  u64_len = 1;
  range_len = 3;
  ping_len = 1;
  meta_data_v1_len = 1;
  meta_data_v2_len = 1;
  block_base_min = 1;
  block_base_max = 1;
  block_altair_max = 1;
  block_merge_max = 1;
  block_capella_max = 1;
  blocks_by_root_min = 0;
  blocks_by_root_max = 1024;
  error_type_min = 0;
  error_type_max = 256;
}

abbrev pub outside : Outside TestBlock
outside = record {
  varint = one_byte;
  snappy = uncompressed;
  formats = formats;
  sizes = sizes;
  fork_context = merged;
}
