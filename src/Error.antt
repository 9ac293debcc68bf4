-- ===== src/Error.antt =====
-- src/kcp/kcp_module/error.rs: the protocol's errors and their io::Error form.
use Prim.Native.String.{String}
use kcp_server.Base.{ℕ}

-- std::io::ErrorKind, as far as the crate names its kinds; `os` is any other, by a number.
pub data ErrorKind : Type 0 where
  other_kind would_block broken_pipe_kind write_zero : ErrorKind
  os : ℕ → ErrorKind

-- std::io::Error holds a kind, and the protocol error that `make_io_error` boxed into it, or a text.
mutual
  pub data Error : Type 0 where
    conv_inconsistent : ℕ → ℕ → Error
    invalid_mtu : ℕ → Error
    invalid_segment_size : ℕ → Error
    invalid_segment_data_size : ℕ → ℕ → Error
    io_error : IoError → Error
    need_update : Error
    recv_queue_empty : Error
    expecting_fragment : Error
    unsupported_cmd : ℕ → Error
    user_buf_too_big : Error
    user_buf_too_small : ℕ → Error
    broken_pipe : Error
    other : String → Error

  pub data IoError : Type 0 where
    raw : ErrorKind → IoError
    boxed : ErrorKind → Error → IoError
    message : ErrorKind → String → IoError

unfoldable pub make_io_error : ErrorKind → Error → IoError
make_io_error kind e = boxed kind e

-- `impl From<Error> for io::Error`.
unfoldable pub to_io_error : Error → IoError
unfolding make_io_error
to_io_error (io_error e) = e
to_io_error recv_queue_empty = make_io_error would_block recv_queue_empty
to_io_error expecting_fragment = make_io_error would_block expecting_fragment
to_io_error broken_pipe = make_io_error broken_pipe_kind broken_pipe
to_io_error e = make_io_error other_kind e

unfoldable pub io_kind : IoError → ErrorKind
io_kind (raw k) = k
io_kind (boxed k e) = k
io_kind (message k text) = k
