-- ===== src/Rpc/Methods/Codes.antt =====
-- The codes of goodbye reasons and of responses, there and back.
use consentry.Common.{ℕ, ◌≡◌, ◌⊎◌, refl, inl, inr, true, false, List, some, arith}
use consentry.Rpc.Methods.{
  GoodbyeReason, goodbye_from_u64, goodbye_to_u64, RpcResponseErrorCode, RpcCodedResponse, success,
  error, stream_termination, as_u8, from_error, is_response, close_after,
}

-- A goodbye reason survives its code, and a code survives the reason that it is read as, unless
-- that is the unknown one.
pub goodbye_round_trip :
    (r : GoodbyeReason) (n : ℕ)
    → (goodbye_from_u64 (goodbye_to_u64 r) ≡ r)
      × ((goodbye_to_u64 (goodbye_from_u64 n) ≡ n) ⊎ (goodbye_from_u64 n ≡ GoodbyeReason.unknown))
unfolding goodbye_from_u64 goodbye_to_u64
goodbye_round_trip r n = (ground arith, ground arith)

module _ {Block MetaData : Type 0} where
  -- By its code alone, what is sent as a response with a code is told from an error: a response
  -- does not close the stream; an error does, and is read back as it was sent.
  response_round_trip :
      (r : RpcCodedResponse Block MetaData) {code : ℕ}
      → as_u8 r ≡ some code
      → ((is_response code ≡ true) × (close_after r ≡ false))
        ⊎ ((is_response code ≡ false)
            × (close_after r ≡ true)
            × ((c : RpcResponseErrorCode) × (message : List ℕ) × (r ≡ error c message)
                × (from_error {Block = Block} {MetaData = MetaData} code message ≡ r)))
  unfolding as_u8 is_response close_after from_error
  response_round_trip (success x) e = inl (ground arith, refl)
  response_round_trip (error c m) e = inr (ground arith, refl, (c, m, refl, ground arith))
  response_round_trip (stream_termination t) e = cc
