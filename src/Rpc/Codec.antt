-- ===== src/Rpc/Codec.antt =====
-- src/rpc/codec: requests and responses as bytes. The crates that the codec calls are one record:
-- SSZ, the Snappy frames, the varints, the fork context and the sizes of SSZ containers, each with
-- the laws of its documentation. Bytes are numbers, and a buffer is the list of its bytes.
mod Requests
mod Responses
mod Base
mod Payload
mod Resuming
mod ResponseResuming
mod RequestRoundTrip
mod ResponseRoundTrip
mod Chunks
mod ChunkRoundTrip
mod Bounds
mod StandIns
mod Examples
use consentry.Common.{
  ℕ, ◌<◌, ◌≤◌, ◌≡◌, ◌≢◌, Bool, if◌then◌else◌, leb, ltb, List, [], ◌∷◌, ◌++◌, length, Option, none,
  some, u64_mod,
}
use consentry.Common.Result.{Result, ok, err}
use consentry.Common.Text.{Text, codes}
use consentry.Common.Decimal.{format}
use consentry.Rpc.Methods.{StatusMessage, Ping, OldBlocksByRangeRequest}
use consentry.Rpc.Protocol.{
  Protocol, Version, ProtocolId, RpcLimits, RpcError, io_error, invalid_data, status, goodbye,
  blocks_by_range, blocks_by_root, ping, meta_data,
}

abbrev pub Bytes : Type 0
Bytes = List ℕ

-- `std::io::Error` by its kind: `UnexpectedEof`, or another; the number is its text.
pub data IoError : Type 0 where
  unexpected_eof other : Text → IoError

pub data ForkName : Type 0 where
  base altair merge capella : ForkName

-- The traits `ssz::Encode` and `ssz::Decode` of a type; `Fits` are the values it has on the wire.
pub record Ssz (A : Type 0) : Type 1 where
  pub as_ssz_bytes : A → Bytes
  pub from_ssz_bytes : Bytes → Result ℕ A
  pub Fits : A → Type 0
  pub from-as : (a : A) → Fits a → from_ssz_bytes (as_ssz_bytes a) ≡ ok a

-- `Uvi<usize>`, which keeps no state. `decode` returns the number and the bytes behind it; without
-- a whole number, and on an error, it leaves the buffer as it was.
pub record Varint : Type 0 where
  pub encode : ℕ → Result IoError Bytes
  pub decode : Bytes → Result IoError (Option (ℕ × Bytes))
  pub decode-nil : decode [] ≡ ok none
  pub decode-encode :
      (n : ℕ)
      → n < u64_mod
      → (p : Bytes) × (encode n ≡ ok p)
        × ((rest : Bytes) → decode (p ++ rest) ≡ ok (some (n, rest)))
  pub decode-append :
      (s more : Bytes) (n : ℕ) (rest : Bytes)
      → decode s ≡ ok (some (n, rest))
      → decode (s ++ more) ≡ ok (some (n, rest ++ more))

-- `FrameEncoder`: the bytes that are written and flushed. `FrameDecoder`: `read_exact input n`
-- reads n bytes, and how far it came in the input. `max_compress_len` of the raw format is also a
-- bound for the frames.
pub record Snappy : Type 0 where
  pub compress : Bytes → Result IoError Bytes
  pub read_exact : Bytes → ℕ → Result IoError Bytes × ℕ
  pub max_compress_len : ℕ → ℕ
  pub read_exact-compress :
      (s : Bytes)
      → length s < 4294967296
      → (c : Bytes) × (compress s ≡ ok c)
        × (length c ≤ max_compress_len (length s))
        × ((rest : Bytes) → read_exact (c ++ rest) (length s) ≡ (ok s, length c))
  -- The end of the input is met behind all of it.
  pub read_exact-eof :
      (input : Bytes) (n position : ℕ) (e : Text)
      → read_exact input n ≡ (err (unexpected_eof e), position)
      → position ≡ length input

-- `ForkContext`
pub record ForkContext : Type 0 where
  pub current_fork : ForkName
  pub to_context_bytes : ForkName → Option Bytes
  pub from_context_bytes : Bytes → Option ForkName
  pub genesis_context_bytes : Bytes
  pub from-to :
      (f : ForkName) (bytes : Bytes)
      → to_context_bytes f ≡ some bytes
      → (length bytes ≡ 4) × (from_context_bytes bytes ≡ some f)
  pub to-base : to_context_bytes base ≡ some genesis_context_bytes

-- The SSZ types that travel. A `MetaDataV1` is its two fields, a `MetaDataV2` its three.
pub record Formats (Block : Type 0) : Type 1 where
  pub status_message : Ssz StatusMessage
  pub u64_number : Ssz ℕ
  pub range_request : Ssz OldBlocksByRangeRequest
  pub block_roots : Ssz (List ℕ)
  pub meta_data_v1 : Ssz (ℕ × List Bool)
  pub meta_data_v2 : Ssz (ℕ × List Bool × List Bool)
  pub default_syncnets : List Bool
  pub error_type : Ssz Text
  pub ping_as_ssz_bytes : Ping → Bytes
  -- A container of one `u64` is that number.
  pub ping-number : (p : Ping) → ping_as_ssz_bytes p ≡ u64_number.as_ssz_bytes p.«data»
  -- The variant of a `SignedBeaconBlock`, and its bytes, which are those of the variant.
  pub fork_of : Block → ForkName
  pub block_of : ForkName → Ssz Block

-- `ssz_fixed_len` of the fixed types, and the lengths that protocol.rs measures once.
pub record Sizes : Type 0 where
  pub status_len : ℕ
  pub u64_len : ℕ
  pub range_len : ℕ
  pub ping_len : ℕ
  pub meta_data_v1_len : ℕ
  pub meta_data_v2_len : ℕ
  pub block_base_min : ℕ
  pub block_base_max : ℕ
  pub block_altair_max : ℕ
  pub block_merge_max : ℕ
  pub block_capella_max : ℕ
  pub blocks_by_root_min : ℕ
  pub blocks_by_root_max : ℕ
  pub error_type_min : ℕ
  pub error_type_max : ℕ

-- What is outside the codec.
pub record Outside (Block : Type 0) : Type 1 where
  pub varint : Varint
  pub snappy : Snappy
  pub formats : Formats Block
  pub sizes : Sizes
  pub fork_context : ForkContext

-- `max_rpc_size`
unfoldable pub max_rpc_size : ForkName → ℕ
max_rpc_size altair = 1048576
max_rpc_size base = 1048576
max_rpc_size merge = 10485760
max_rpc_size capella = 10485760

-- `rpc_block_limits_by_fork`
unfoldable pub rpc_block_limits_by_fork : Sizes → ForkName → RpcLimits
rpc_block_limits_by_fork z base = record { lower = z.block_base_min; upper = z.block_base_max }
rpc_block_limits_by_fork z altair = record { lower = z.block_base_min; upper = z.block_altair_max }
rpc_block_limits_by_fork z merge = record { lower = z.block_base_min; upper = z.block_merge_max }
rpc_block_limits_by_fork z capella = record {
  lower = z.block_base_min;
  upper = z.block_capella_max;
}

-- `ProtocolId::rpc_request_limits`; a goodbye reason has the length of a `u64`.
unfoldable pub rpc_request_limits : Sizes → Protocol → RpcLimits
rpc_request_limits z status = record { lower = z.status_len; upper = z.status_len }
rpc_request_limits z goodbye = record { lower = z.u64_len; upper = z.u64_len }
rpc_request_limits z blocks_by_range = record { lower = z.range_len; upper = z.range_len }
rpc_request_limits z blocks_by_root = record {
  lower = z.blocks_by_root_min;
  upper = z.blocks_by_root_max;
}
rpc_request_limits z ping = record { lower = z.ping_len; upper = z.ping_len }
rpc_request_limits z meta_data = record { lower = 0; upper = 0 }

-- `ProtocolId::rpc_response_limits`
unfoldable pub rpc_response_limits : Sizes → ForkName → Protocol → RpcLimits
unfolding rpc_block_limits_by_fork
rpc_response_limits z fork status = record { lower = z.status_len; upper = z.status_len }
rpc_response_limits z fork goodbye = record { lower = 0; upper = 0 }
rpc_response_limits z fork blocks_by_range = rpc_block_limits_by_fork z fork
rpc_response_limits z fork blocks_by_root = rpc_block_limits_by_fork z fork
rpc_response_limits z fork ping = record { lower = z.ping_len; upper = z.ping_len }
rpc_response_limits z fork meta_data = record {
  lower = z.meta_data_v1_len;
  upper = z.meta_data_v2_len;
}

-- `impl From<io::Error> for RPCError`: the text is kept.
unfoldable pub from_io_error : IoError → RpcError
from_io_error (unexpected_eof text) = io_error text
from_io_error (other text) = io_error text

-- `handle_length`: the result, the length to keep and the buffer.
unfoldable pub handle_length :
    Varint → Option ℕ → Bytes → Result RpcError (Option ℕ) × Option ℕ × Bytes
handle_length varint (some length) bytes = (ok (some length), some length, bytes)
handle_length varint none bytes = elim (varint.decode bytes) [
  | err e ↦ (err (from_io_error e), none, bytes)
  | ok none ↦ (ok none, none, bytes)
  | ok (some (length, rest)) ↦ (ok (some length), some length, rest)
]

-- `handle_error`
unfoldable pub handle_error : {A : Type 0} → IoError → ℕ → ℕ → Result RpcError (Option A)
handle_error (unexpected_eof text) num_bytes max_compressed_len =
    if leb max_compressed_len num_bytes
    then err (
        invalid_data (
          codes "Received malicious snappy message, num_bytes "
          ++ format num_bytes
          ++ codes ", max_compressed_len "
          ++ format max_compressed_len))
    else ok none
handle_error (other text) num_bytes max_compressed_len = err (from_io_error (other text))

-- The match on a length, in the three decoders alike: `set` writes the length to keep, `body` goes on.
module _ {C A : Type 0} where
  abbrev pub after_length :
      (C → Option ℕ → C)
      → (C → Bytes → ℕ → Result RpcError (Option A) × C × Bytes)
      → C
      → Result RpcError (Option ℕ) × Option ℕ × Bytes
      → Result RpcError (Option A) × C × Bytes
  after_length set body codec (err e, len, src) = (err e, set codec len, src)
  after_length set body codec (ok none, len, src) = (ok none, set codec len, src)
  after_length set body codec (ok (some length), len, src) = body (set codec len) src length
