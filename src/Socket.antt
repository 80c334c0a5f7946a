-- ===== src/Socket.antt =====
-- The socket calls that set up and close the descriptors of the program, with their answers.
pub mod Descriptors
use udppingpong.Base.{ℕ, Bool, Option, none, some, List, [], ◌∷◌, if◌then◌else◌}
use udppingpong.Base.Int.{ℤ, pos, ◌*ℤ◌, eq_ℤ}

-- `A` is the type of socket addresses.
pub data Call (A : Type 0) : Type 0 where
  socket : (answer : ℤ) → Call A
  close : (fd : ℤ) → Call A
  reuse_addr : (fd : ℤ) → Call A
  reuse_port : (fd : ℤ) → Call A
  bind : (fd : ℤ) → A → Call A
  non_blocking : (fd : ℤ) → Call A
  -- `none` is a failure
  get_rcvbuf : (fd : ℤ) → Option ℤ → Call A
  set_rcvbuf : (fd : ℤ) → (size : ℤ) → Call A

-- What the operating system answers where the code looks at it. A failure is its `errno`.
pub record Answers : Type 0 where
  pub socket : ℤ
  pub bind : Option ℕ
  pub rcvbuf : Option ℤ
  pub rcvbuf_errno : ℕ

-- The test `if (sockfd)`.
abbrev pub is_set : ℤ → Bool
is_set fd = if eq_ℤ fd (pos 0) then Bool.false else Bool.true

-- `if (sockfd) ::close(sockfd);`
abbrev pub close_if_set : {A : Type 0} → ℤ → List (Call A)
close_if_set fd = if is_set fd then close fd ∷ [] else []
