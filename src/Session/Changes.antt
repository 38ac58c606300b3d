-- ===== src/Session/Changes.antt =====
-- Requests that change an entry, end to end.
use nandroidfs.Session.{at_rest, reply, awaiting}
use nandroidfs.Base.{
  bytes_eq_refl, ℕ, ◌≡◌, refl, ap, ◌∙◌, [], ◌∷◌, ◌++◌, Bytes, none, some, Option, Option-cases, inl,
  inr,
}
use nandroidfs.Exec.{Result, ok, ◌>>◌}
use nandroidfs.Protocol.{
  RequestType, remove_file, remove_directory, create_directory, request_byte, status_byte,
}
use nandroidfs.Wire.{write_utf8_string, write_byte}
use nandroidfs.Protocol.RoundTrip.{IsPath}
use nandroidfs.Protocol.Request.{delete_file, delete_dir, create_dir, encode}
use nandroidfs.Daemon.Posix.{Posix, Sys, Handler}
use nandroidfs.Daemon.Convert.{default_directory_mode}
use nandroidfs.Daemon.Handlers.{act_remove_file, act_remove_directory, act_create_directory}
use nandroidfs.Cache.{get_cached, invalidate, TimedCache}
use nandroidfs.Cache.Assoc.{lookup-erase, erase}
use nandroidfs.Path.{get_parent_path}
use nandroidfs.Conversion.{Unicode, WideString, win32_path_to_unix}
use nandroidfs.Connection.{Client, invalidate_stat, invalidate_parent_dir}
use nandroidfs.Connection.Requests.{
  req_remove_file, req_remove_directory, req_create_directory, request_of_path, forget,
}
use nandroidfs.Session.Reply.{reply_lem, answered, status_of, status_of_lem, request_of_path_lem}

-- The caches without a path and without the listing of its parent.
abbrev pub without : {T : Type 0} → Bytes → TimedCache T → TimedCache T
without p cache = record cache { cached_data = erase p cache.cached_data }

abbrev pub without_parent : {T : Type 0} → Option Bytes → TimedCache T → TimedCache T
without_parent none cache = cache
without_parent (some parent) cache = without parent cache

abbrev pub forgotten : Bytes → Client → Client
forgotten p c = record c {
  stat_cache = without p c.stat_cache;
  dir_list_cache = without_parent (get_parent_path p) c.dir_list_cache;
}

forget_lem :
    (p input sent : Bytes) (c : Client)
    → forget p (awaiting input sent c) ≡ (ok tt, awaiting input sent (forgotten p c))
unfolding forget invalidate_stat invalidate_parent_dir invalidate
forget_lem p input sent c = elim (Option-cases (get_parent_path p)) [
  | inl missing ↦ rw missing refl
  | inr (parent, found) ↦ rw found refl
]

-- Right after a change of an entry with a parent is asked for, the caches have nothing for its
-- path and no listing of its parent.
pub forget-get_cached :
    (p parent : Bytes) (now : ℕ) (c : Client)
    → get_parent_path p ≡ some parent
    → ((get_cached p now (forgotten p c).stat_cache).0 ≡ none)
      × ((get_cached parent now (forgotten p c).dir_list_cache).0 ≡ none)
unfolding get_cached
forget-get_cached p parent now c e = (
  rw (lookup-erase p p c.stat_cache.cached_data, bytes_eq_refl p) refl,
  rw (e, lookup-erase parent parent c.dir_list_cache.cached_data, bytes_eq_refl parent) refl,
)

changing_lem :
    (t : RequestType) (p sent : Bytes) (r : Sys Unit) (c : Client)
    → IsPath p
    → (forget p >> request_of_path t p) (awaiting (status_byte (status_of r) ∷ []) sent c) ≡ (
      ok (status_of r),
      awaiting [] (sent ++ (request_byte t ∷ (write_utf8_string p).bytes)) (forgotten p c),
    )
changing_lem t p sent r c h = rw (
  forget_lem p (status_byte (status_of r) ∷ []) sent c,
  request_of_path_lem t p [] sent (status_byte (status_of r)) (forgotten p c) h,
  status_of_lem r,
)

-- The bytes that the daemon sends for a request that is answered by a status.
status_sent :
    {F : Type 0} {m : Result Unit × Handler F} (h : Handler F) (b : ℕ)
    → m ≡ (ok tt, record h { port = record { input = []; pending = []; sent = b ∷ [] } })
    → (m.0 ≡ ok tt) × (m.1.port.sent ≡ b ∷ [])
status_sent h b e = (ap (λ r. r.0) e, ap (λ r. r.1.port.sent) e)

module _ {F : Type 0} (os : Posix F) where
  delete_file-reply :
      (p rw_buffer : Bytes) (fs : F)
      → IsPath p
      → reply os (delete_file p) rw_buffer fs ≡ status_byte (status_of (os.unlink p fs).0) ∷ []
  unfolding act_remove_file
  delete_file-reply p rw_buffer fs h =
      let (ends, sent) =
        status_sent (at_rest rw_buffer (os.unlink p fs).1) _
          (answered os (os.unlink p) rw_buffer fs) in
      reply_lem os (delete_file p) rw_buffer fs h tt ends ∙ sent

  delete_dir-reply :
      (p rw_buffer : Bytes) (fs : F)
      → IsPath p
      → reply os (delete_dir p) rw_buffer fs ≡ status_byte (status_of (os.rmdir p fs).0) ∷ []
  unfolding act_remove_directory
  delete_dir-reply p rw_buffer fs h =
      let (ends, sent) =
        status_sent (at_rest rw_buffer (os.rmdir p fs).1) _
          (answered os (os.rmdir p) rw_buffer fs) in
      reply_lem os (delete_dir p) rw_buffer fs h tt ends ∙ sent

  create_dir-reply :
      (p rw_buffer : Bytes) (fs : F)
      → IsPath p
      → reply os (create_dir p) rw_buffer fs
        ≡ status_byte (status_of (os.mkdir p default_directory_mode fs).0) ∷ []
  unfolding act_create_directory
  create_dir-reply p rw_buffer fs h =
      let (ends, sent) =
        status_sent (at_rest rw_buffer (os.mkdir p default_directory_mode fs).1) _
          (answered os (os.mkdir p default_directory_mode) rw_buffer fs) in
      reply_lem os (create_dir p) rw_buffer fs h tt ends ∙ sent

module _ {F : Type 0} (os : Posix F) (unicode : Unicode) where
  -- For a path that fits the wire, req_remove_file gives, with the daemon's response, the status
  -- of `unlink`, has sent that request and no more, and has taken the path and the listing of its
  -- parent out of the caches.
  pub req_remove_file_lem :
      (path : WideString) (rw_buffer sent : Bytes) (fs : F) (c : Client)
      → IsPath (win32_path_to_unix unicode path)
      → req_remove_file unicode path
          (awaiting (reply os (delete_file (win32_path_to_unix unicode path)) rw_buffer fs) sent c)
        ≡ (
          ok (status_of (os.unlink (win32_path_to_unix unicode path) fs).0),
          awaiting []
              (sent ++ (encode (delete_file (win32_path_to_unix unicode path))).bytes)
              (forgotten (win32_path_to_unix unicode path) c),
        )
  unfolding req_remove_file encode write_byte
  req_remove_file_lem path rw_buffer sent fs c h =
      rw (delete_file-reply os (win32_path_to_unix unicode path) rw_buffer fs h)
        (changing_lem remove_file (win32_path_to_unix unicode path) sent _ c h)

  -- For a path that fits the wire, req_remove_directory gives, with the daemon's response, the
  -- status of `rmdir`, has sent that request and no more, and has taken the path and the listing
  -- of its parent out of the caches.
  pub req_remove_directory_lem :
      (path : WideString) (rw_buffer sent : Bytes) (fs : F) (c : Client)
      → IsPath (win32_path_to_unix unicode path)
      → req_remove_directory unicode path
          (awaiting (reply os (delete_dir (win32_path_to_unix unicode path)) rw_buffer fs) sent c)
        ≡ (
          ok (status_of (os.rmdir (win32_path_to_unix unicode path) fs).0),
          awaiting []
              (sent ++ (encode (delete_dir (win32_path_to_unix unicode path))).bytes)
              (forgotten (win32_path_to_unix unicode path) c),
        )
  unfolding req_remove_directory encode write_byte
  req_remove_directory_lem path rw_buffer sent fs c h =
      rw (delete_dir-reply os (win32_path_to_unix unicode path) rw_buffer fs h)
        (changing_lem remove_directory (win32_path_to_unix unicode path) sent _ c h)

  -- For a path that fits the wire, req_create_directory gives, with the daemon's response, the
  -- status of `mkdir`, has sent that request and no more, and has taken the path and the listing
  -- of its parent out of the caches.
  pub req_create_directory_lem :
      (path : WideString) (rw_buffer sent : Bytes) (fs : F) (c : Client)
      → IsPath (win32_path_to_unix unicode path)
      → req_create_directory unicode path
          (awaiting (reply os (create_dir (win32_path_to_unix unicode path)) rw_buffer fs) sent c)
        ≡ (
          ok (status_of (os.mkdir (win32_path_to_unix unicode path) default_directory_mode fs).0),
          awaiting []
              (sent ++ (encode (create_dir (win32_path_to_unix unicode path))).bytes)
              (forgotten (win32_path_to_unix unicode path) c),
        )
  unfolding req_create_directory encode write_byte
  req_create_directory_lem path rw_buffer sent fs c h =
      rw (create_dir-reply os (win32_path_to_unix unicode path) rw_buffer fs h)
        (changing_lem create_directory (win32_path_to_unix unicode path) sent _ c h)
