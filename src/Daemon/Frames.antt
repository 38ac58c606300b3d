-- ===== src/Daemon/Frames.antt =====
-- What a request does once its arguments are read does not look at the bytes that are still to
-- come, and leaves them alone. One rule for each way to build such code.
pub mod Acts
pub mod Transfer
use nandroidfs.Daemon.Posix.{
  slice, Sys, failed, done, Errno, Posix, Handler, with_input, respond, call, flush,
  ensure_rw_buffer_size, store,
}
use nandroidfs.Base.{
  ℕ, zero, suc, ◌≡◌, refl, Bool, true, false, if◌then◌else◌, Bytes, [], ◌∷◌, Option, none, some,
  List, take, ltb,
}
use nandroidfs.Wire.{Put}
use nandroidfs.Exec.{Exception, Result, Exec, ok, raise, pure, throw, gets, ◌>>=◌, ◌>>◌, continue}

pub record Frames {F A : Type 0} (m : Exec (Handler F) A) : Type 0 where
  pub at : (i : Bytes) (s : Handler F) → m (with_input i s) ≡ ((m s).0, with_input i (m s).1)

module _ {F A : Type 0} where
  pub Frames-pure : (a : A) → Frames (pure {S = Handler F} a)
  Frames-pure a = record { at = λ i s. refl }

  pub Frames-throw : (e : Exception) → Frames (throw {S = Handler F} {A = A} e)
  Frames-throw e = record { at = λ i s. refl }

  pub Frames-call : (f : F → A × F) → Frames (call f)
  unfolding call
  Frames-call f = record { at = λ i s. refl }

  pub Frames-if :
      (b : Bool) (m n : Exec (Handler F) A) → Frames m → Frames n → Frames (if b then m else n)
  Frames-if true m n km kn = km
  Frames-if false m n km kn = kn

module _ {F : Type 0} where
  pub Frames-respond : (w : Put) → Frames (respond {F = F} w)
  unfolding respond
  Frames-respond w = record { at = λ i s. refl }

  pub Frames-flush : Frames (flush {F = F})
  unfolding flush
  Frames-flush = record { at = λ i s. refl }

  pub Frames-ensure : (n : ℕ) → Frames (ensure_rw_buffer_size {F = F} n)
  unfolding ensure_rw_buffer_size
  Frames-ensure n = record { at = λ i s. refl }

  pub Frames-slice : (n k : ℕ) → Frames (slice {F = F} n k)
  unfolding slice
  Frames-slice n k = record { at = λ i s. refl }

  pub Frames-store : (n : ℕ) (b : Bytes) → Frames (store {F = F} n b)
  unfolding store
  Frames-store n b = record { at = λ i s. refl }

module _ {F A B : Type 0} where
  continue-Frames :
      (r : Result A) (f : A → Exec (Handler F) B) (i : Bytes) (s : Handler F)
      → ((a : A) → Frames (f a))
      → continue r f (with_input i s) ≡ ((continue r f s).0, with_input i (continue r f s).1)
  continue-Frames (ok a) f i s kf = (kf a).at i s
  continue-Frames (raise e) f i s kf = refl

  pub Frames-bind :
      (m : Exec (Handler F) A) (f : A → Exec (Handler F) B)
      → Frames m
      → ((a : A) → Frames (f a))
      → Frames (m >>= f)
  Frames-bind m f km kf = record {
    at = λ i s. rw (km.at i s) (continue-Frames (m s).0 f i (m s).1 kf);
  }

  pub Frames-then :
      (m : Exec (Handler F) A) (n : Exec (Handler F) B) → Frames m → Frames n → Frames (m >> n)
  Frames-then m n km kn = Frames-bind m (λ _. n) km (λ _. kn)

pub ruleset frames_rules = (
  Frames-pure, Frames-throw, Frames-call, Frames-if, Frames-bind, Frames-then, Frames-respond,
  Frames-flush, Frames-ensure, Frames-store, Frames-slice,
)
