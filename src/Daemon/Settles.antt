-- ===== src/Daemon/Settles.antt =====
-- Code that never uses up the fuel of a loop: what it throws is an exception of the program. One
-- rule for each way to build such code.
pub mod Acts
pub mod Transfer
use nandroidfs.Exec.{
  Port, Exception, Result, Exec, ok, raise, eof, runtime, stuck, pure, throw, ◌>>=◌, ◌>>◌, continue,
  read_with,
}
use nandroidfs.Base.{
  ℕ, ◌≡◌, ◌≢◌, refl, arith, Bool, true, false, if◌then◌else◌, Bytes, some, none, Option,
}
use nandroidfs.Wire.{Get, Put}
use nandroidfs.Daemon.Posix.{
  Handler, receive, respond, call, flush, ensure_rw_buffer_size, store, slice,
}

pub record Settles {S A : Type 0} (m : Exec S A) : Type 0 where
  pub at : (s : S) → (m s).0 ≢ raise stuck

module _ {S A : Type 0} where
  pub Settles-pure : (a : A) → Settles (pure {S = S} a)
  Settles-pure a = record { at = λ s e. cc }

  pub Settles-throw : (x : Exception) → x ≢ stuck → Settles (throw {S = S} {A = A} x)
  Settles-throw x h = record { at = λ s e. ground arith }

  pub Settles-if :
      (b : Bool) (m n : Exec S A) → Settles m → Settles n → Settles (if b then m else n)
  Settles-if true m n km kn = km
  Settles-if false m n km kn = kn

pub read_with-settles :
    {A : Type 0} (o : Option (A × Bytes)) (p : Port) → (read_with o p).0 ≢ raise stuck
read_with-settles none p = λ e. ground arith
read_with-settles (some (a, rest)) p = λ e. ground arith

module _ {F A : Type 0} where
  pub Settles-call : (f : F → A × F) → Settles (call f)
  unfolding call
  Settles-call f = record { at = λ s e. cc }

  pub Settles-receive : (get : Get A) → Settles (receive {F = F} get)
  unfolding receive
  Settles-receive get = record { at = λ s. read_with-settles (get s.port.input) s.port }

module _ {F : Type 0} where
  pub Settles-respond : (w : Put) → Settles (respond {F = F} w)
  unfolding respond
  Settles-respond w = record { at = λ s e. ground arith }

  pub Settles-flush : Settles (flush {F = F})
  unfolding flush
  Settles-flush = record { at = λ s e. cc }

  pub Settles-ensure : (n : ℕ) → Settles (ensure_rw_buffer_size {F = F} n)
  unfolding ensure_rw_buffer_size
  Settles-ensure n = record { at = λ s e. cc }

  pub Settles-slice : (n k : ℕ) → Settles (slice {F = F} n k)
  unfolding slice
  Settles-slice n k = record { at = λ s e. cc }

  pub Settles-store : (n : ℕ) (b : Bytes) → Settles (store {F = F} n b)
  unfolding store
  Settles-store n b = record { at = λ s e. cc }

module _ {S A B : Type 0} where
  pub continue-Settles :
      (r : Result A) (f : A → Exec S B) (s : S)
      → r ≢ raise stuck
      → ((a : A) → Settles (f a))
      → (continue r f s).0 ≢ raise stuck
  continue-Settles (ok a) f s h kf = (kf a).at s
  continue-Settles (raise e) f s h kf = λ p. ground arith

  pub Settles-bind :
      (m : Exec S A) (f : A → Exec S B) → Settles m → ((a : A) → Settles (f a)) → Settles (m >>= f)
  Settles-bind m f km kf = record { at = λ s. continue-Settles (m s).0 f (m s).1 (km.at s) kf }

  pub Settles-then : (m : Exec S A) (n : Exec S B) → Settles m → Settles n → Settles (m >> n)
  Settles-then m n km kn = Settles-bind m (λ _. n) km (λ _. kn)

pub ruleset settles_rules = (
  Settles-pure, Settles-throw, Settles-call, Settles-if, Settles-bind, Settles-then,
  Settles-receive, Settles-respond, Settles-flush, Settles-ensure, Settles-store, Settles-slice,
)
