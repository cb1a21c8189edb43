-- ===== src/Streams/Io.antt =====
-- What the protocol of streams does with bytes.
use nabto_embedded_sdk.Base.{ℕ, ◌≤◌, ◌≡◌, ◌≢◌, arith, true, false, List, ◌++◌, length, take}
use nabto_embedded_sdk.Attacher.{ec_ok}
use nabto_embedded_sdk.Streams.{
  StreamStatus, status_ok, status_closed, status_eof, status_aborted, status_other, StreamLib,
  status_to_ec, is_ok_status,
}

-- The protocol gives the bytes that came in, `contents`, from the front, and no more than it is asked for.
pub record ReadLaws (sl : StreamLib) (contents : sl.Protocol → List ℕ) : Type 0 where
  pub gives :
      (n : ℕ) (p : sl.Protocol)
      → is_ok_status (sl.read_buffer n p).0 ≡ true
      → (sl.read_buffer n p).1 ++ contents (sl.read_buffer n p).2 ≡ contents p
  pub at_most :
      (n : ℕ) (p : sl.Protocol)
      → is_ok_status (sl.read_buffer n p).0 ≡ true
      → length (sl.read_buffer n p).1 ≤ n

-- The protocol takes bytes from the front and puts them behind those that it took before, `sent`.
pub record WriteLaws (sl : StreamLib) (sent : sl.Protocol → List ℕ) : Type 0 where
  pub takes :
      (bytes : List ℕ) (p : sl.Protocol)
      → is_ok_status (sl.write_buffer bytes p).0 ≡ true
      → sent (sl.write_buffer bytes p).2 ≡ sent p ++ take (sl.write_buffer bytes p).1 bytes
  pub no_more :
      (bytes : List ℕ) (p : sl.Protocol)
      → is_ok_status (sl.write_buffer bytes p).0 ≡ true
      → (sl.write_buffer bytes p).1 ≤ length bytes

pub status_to_ec-ok :
    (status : StreamStatus) → is_ok_status status ≡ false → status_to_ec status ≢ ec_ok
unfolding is_ok_status status_to_ec
status_to_ec-ok status_ok h = ground arith
status_to_ec-ok status_closed h = λ e. ground arith
status_to_ec-ok status_eof h = λ e. ground arith
status_to_ec-ok status_aborted h = λ e. ground arith
status_to_ec-ok status_other h = λ e. ground arith
