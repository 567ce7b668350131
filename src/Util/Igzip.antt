-- ===== src/Util/Igzip.antt =====
-- src/util/igzip.cpp. ISA-L and the files of C are parameters.
use drlog_search.Base.{ℕ, ◌*◌, Bool, Option, none, some, [], Bytes, ◌==◌, if◌then◌else◌, is_empty}

-- A call of `isal_inflate`: an error, or the bytes that it wrote, with the state behind it and the
-- input that is left.
pub data Inflated (State : Type 0) : Type 0 where
  inflate_error : ℕ → Inflated State
  inflated : Bytes → State → Bytes → Inflated State

-- `fopen` answers with a handle; `fread` of so many bytes with what it read, or `none` where
-- `ferror` is set. `inflate_init` is the state behind `isal_inflate_init`; `read_gzip_header`
-- answers with the state and the input behind the header, or an error; `finished` is
-- `ISAL_BLOCK_FINISH`; `inflate` takes the input and the room for output.
pub record Platform : Type 1 where
  pub Handle : Type 0
  pub fopen : Bytes → Option Handle
  pub fread : Handle → ℕ → Option (Bytes × Handle)
  pub State : Type 0
  pub inflate_init : State
  pub read_gzip_header : State → Bytes → Inflated State
  pub finished : State → Bool
  pub inflate : State → Bytes → ℕ → Inflated State

-- An error code is negative: its absolute value. A read gives the bytes that it wrote.
pub data ReadResult : Type 0 where
  read_error : ℕ → ReadResult
  read : Bytes → ReadResult

-- GZIP_DEFAULT_BUF_SIZE
abbrev pub default_buf_size : ℕ
default_buf_size = 16 * 1024

module _ (platform : Platform) where
  open platform use {Handle, State}

  pub record IgzipState : Type 0 where
    pub state : State
    pub next_in : Bytes
    pub in_file : Handle

  pub data Opened : Type 0 where
    open_error : ℕ → Opened
    opened : IgzipState → Opened

  unfoldable pub read_header : Handle → Inflated State → Opened
  read_header file (inflate_error code) = open_error code
  read_header file (inflated _ state rest) =
      opened (record { state = state; next_in = rest; in_file = file })

  unfoldable pub first_block : Option (Bytes × Handle) → Opened
  unfolding read_header
  first_block none = open_error 102
  first_block (some (input, file)) =
      read_header file (platform.read_gzip_header platform.inflate_init input)

  unfoldable pub open_handle : Option Handle → Opened
  unfolding first_block
  open_handle none = open_error 101
  open_handle (some file) = first_block (platform.fread file default_buf_size)

  unfoldable pub igzopen : Bytes → Opened
  unfolding open_handle
  igzopen filename = open_handle (platform.fopen filename)

  unfoldable pub written : IgzipState → Inflated State → ReadResult × IgzipState
  written igz (inflate_error code) = (read_error code, igz)
  written igz (inflated out state rest) = (read out, record igz { state = state; next_in = rest })

  unfoldable pub refilled : ℕ → IgzipState → Option (Bytes × Handle) → ReadResult × IgzipState
  unfolding written
  refilled size igz none = (read_error 102, igz)
  refilled size igz (some (input, file)) =
      written (record igz { next_in = input; in_file = file })
        (platform.inflate igz.state input size)

  -- `igzread`, with a buffer of `size` bytes.
  unfoldable pub igzread : ℕ → IgzipState → ReadResult × IgzipState
  unfolding refilled
  igzread size igz =
      if size == 0
      then (read_error 1002, igz)
      else if platform.finished igz.state
      then (read [], igz)
      else if is_empty igz.next_in
      then refilled size igz (platform.fread igz.in_file default_buf_size)
      else written igz (platform.inflate igz.state igz.next_in size)
