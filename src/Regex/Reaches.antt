-- ===== src/Regex/Reaches.antt =====
-- What a program of src/backends/regex.h may do, as a relation: the threads that its instructions
-- allow, chosen at will, over an input.
use hammer.Prelude.{ℕ, suc, ◌/◌, ◌%◌, ◌≤◌, ◌≡◌, refl, some, List, [], ◌∷◌, length, get_elem?, drop}
use hammer.Regex.{
  Op, rvm_accept, rvm_goto, rvm_fork, rvm_push, rvm_action, rvm_capture, rvm_eof, rvm_match,
  rvm_step, svm_accept, svm_nop, svm_push, svm_action, svm_capture, svm_entry, Prog, Trace,
}
use hammer.Regex.Threads.{Claims, Carries}
use hammer.Regex.Rounds.{IsCarried}

-- The first character, 0 at the end.
abbrev pub char_of : List ℕ → ℕ
char_of [] = 0
char_of (ch ∷ rest) = ch

abbrev pub InsnAt : Prog → ℕ → Op → ℕ → Type 0
InsnAt prog ip op arg = get_elem? prog.insns ip ≡ some (record { op = op; arg = arg })

-- A thread can be at the instruction `ip` and the position `off`, having left `trace`.
pub data Reaches (prog : Prog) (input : List ℕ) : ℕ → ℕ → Trace → Type 0 where
  begins : Reaches prog input 0 0 (svm_entry svm_nop 0 0 ∷ [])
  jumps :
      {ip off : ℕ} {trace : Trace} (arg : ℕ)
      → InsnAt prog ip rvm_goto arg
      → Reaches prog input ip off trace
      → Reaches prog input arg off trace
  forks_off :
      {ip off : ℕ} {trace : Trace} (arg : ℕ)
      → InsnAt prog ip rvm_fork arg
      → Reaches prog input ip off trace
      → Reaches prog input arg off trace
  forks_on :
      {ip off : ℕ} {trace : Trace} (arg : ℕ)
      → InsnAt prog ip rvm_fork arg
      → Reaches prog input ip off trace
      → Reaches prog input (suc ip) off trace
  pushes :
      {ip off : ℕ} {trace : Trace} (arg : ℕ)
      → InsnAt prog ip rvm_push arg
      → Reaches prog input ip off trace
      → Reaches prog input (suc ip) off (svm_entry svm_push 0 off ∷ trace)
  acts :
      {ip off : ℕ} {trace : Trace} (arg : ℕ)
      → InsnAt prog ip rvm_action arg
      → Reaches prog input ip off trace
      → Reaches prog input (suc ip) off (svm_entry svm_action arg off ∷ trace)
  captures :
      {ip off : ℕ} {trace : Trace} (arg : ℕ)
      → InsnAt prog ip rvm_capture arg
      → Reaches prog input ip off trace
      → Reaches prog input (suc ip) off (svm_entry svm_capture 0 off ∷ trace)
  ends :
      {ip off : ℕ} {trace : Trace} (arg : ℕ)
      → InsnAt prog ip rvm_eof arg
      → off ≡ length input
      → Reaches prog input ip off trace
      → Reaches prog input (suc ip) off trace
  matches :
      {ip off : ℕ} {trace : Trace} (arg : ℕ)
      → InsnAt prog ip rvm_match arg
      → arg % 256 ≤ char_of (drop off input)
      → char_of (drop off input) ≤ arg / 256 % 256
      → Reaches prog input ip off trace
      → Reaches prog input (suc ip) off trace
  steps :
      {ip off : ℕ} {trace : Trace} (arg : ℕ)
      → InsnAt prog ip rvm_step arg
      → Reaches prog input ip off trace
      → Reaches prog input (suc ip) (suc off) trace

-- The trace of a thread that is at an accept, inside the input or at its end.
pub record Accepts (prog : Prog) (input : List ℕ) (trace : Trace) : Type 0 where
  pub ip : ℕ
  pub off : ℕ
  pub arg : ℕ
  pub before : Trace
  pub accept : InsnAt prog ip rvm_accept arg
  pub reached : Reaches prog input ip off before
  pub inside : off ≤ length input
  pub ended : trace ≡ svm_entry svm_accept 0 off ∷ before

abbrev pub claims_at : Prog → List ℕ → ℕ → Claims
claims_at prog input off = record {
  here = λ ip trace. Reaches prog input ip off trace;
  next = λ ip trace. Reaches prog input ip (suc off) trace;
  accepted = Accepts prog input;
}

module _ (prog : Prog) (input : List ℕ) (off : ℕ) (inside : off ≤ length input) where
  carries :
      (ip : ℕ) (trace : Trace) (op : Op) (arg : ℕ)
      → InsnAt prog ip op arg
      → Reaches prog input ip off trace
      → Carries
          (claims_at prog input off)
          off
          (length input)
          (char_of (drop off input))
          ip
          trace
          op
          arg
  carries ip trace rvm_accept arg at r = record {
    ip = ip;
    off = off;
    arg = arg;
    before = trace;
    accept = at;
    reached = r;
    inside = inside;
    ended = refl;
  }
  carries ip trace rvm_goto arg at r = jumps arg at r
  carries ip trace rvm_fork arg at r = (forks_off arg at r, forks_on arg at r)
  carries ip trace rvm_push arg at r = pushes arg at r
  carries ip trace rvm_action arg at r = acts arg at r
  carries ip trace rvm_capture arg at r = captures arg at r
  carries ip trace rvm_eof arg at r = λ e. ends arg at e r
  carries ip trace rvm_match arg at r = λ low high. matches arg at low high r
  carries ip trace rvm_step arg at r = steps arg at r

  pub reaches-IsCarried :
      IsCarried (claims_at prog input off) off (length input) (char_of (drop off input)) prog
  reaches-IsCarried ip trace insn at r = carries ip trace insn.op insn.arg at r
