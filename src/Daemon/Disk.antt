-- ===== src/Daemon/Disk.antt =====
-- A disk with one file, on which the tests run the daemon. A read gives two bytes at most.
use nandroidfs.Base.{
  ℕ, ◌+◌, [], ◌∷◌, ◌++◌, Bytes, length, take, drop, min, ◌<◌, ◌≡◌, refl, sym, ap, ◌∙◌, arith,
  take-append-drop, drop-append_exact, drop-drop, length-take, take_all,
}
use nandroidfs.Daemon.ReadFile.{RegularFile}
use nandroidfs.Daemon.Overwrite.{overwrite}
use nandroidfs.Daemon.WriteFile.{WritableFile, took}
use nandroidfs.Daemon.Posix.{Posix, failed, done, enoent}

-- The bytes of the file, and where its descriptor stands.
pub record Disk : Type 0 where
  pub content : Bytes
  pub position : ℕ

abbrev pub one_file : Posix Disk
one_file = record {
  stat = λ path fs. (
    done (record { st_mode = 33188; st_size = length fs.content; st_atime = 7; st_mtime = 9 }),
    fs,
  );
  opendir = λ path fs. (done (record { stream = 1; names = (b'f' ∷ []) ∷ [] }), fs);
  closedir = λ stream fs. fs;
  rename = λ from to fs. (failed enoent, fs);
  unlink = λ path fs. (failed enoent, fs);
  rmdir = λ path fs. (failed enoent, fs);
  mkdir = λ path mode fs. (failed enoent, fs);
  open_fd = λ path flags mode fs. (done 3, fs);
  close_fd = λ handle fs. (done tt, fs);
  lseek_set = λ handle offset fs. (done offset, record fs { position = offset });
  read_fd = λ handle count fs.
      let chunk = take (min count 2) (drop fs.position fs.content) in
      (done chunk, record fs { position = fs.position + length chunk });
  write_fd = λ handle bytes fs. (
    done (length bytes),
    record {
      content = overwrite fs.position bytes fs.content;
      position = fs.position + length bytes;
    },
  );
  ftruncate = λ handle len fs. (done tt, record fs { content = take len fs.content });
  utimensat = λ path access write fs. (done tt, fs);
  statvfs = λ path fs. (
    done (record { f_bsize = 512; f_bfree = 4; f_bavail = 3; f_favail = 100; f_blocks = 8 }),
    fs,
  );
  access_rwx = λ path fs. (done tt, fs);
}

two_at_end : (n : ℕ) (bytes : Bytes) → 0 < n → take (min n 2) bytes ≡ [] → bytes ≡ []
two_at_end n [] h e = refl
two_at_end n (b ∷ bytes) h e =
    absurd (omega (arith, length-take (min n 2) (b ∷ bytes), ap length e))

split_again : (k : ℕ) (bytes : Bytes) → take k bytes ++ drop (length (take k bytes)) bytes ≡ bytes
split_again k bytes =
    let rest = drop-append_exact (length (take k bytes)) (take k bytes) (drop k bytes) refl in
    ap (λ (t : Bytes). take k bytes ++ t)
      (ap (drop (length (take k bytes))) (sym (take-append-drop k bytes)) ∙ rest)
    ∙ take-append-drop k bytes

pub one_file-RegularFile : RegularFile one_file 3
one_file-RegularFile = record {
  content = λ fs. fs.content;
  position = λ fs. fs.position;
  chunk = λ n fs. take (min n 2) (drop fs.position fs.content);
  seeks = λ offset fs. refl;
  seeks_to = λ offset fs. refl;
  seeks_only = λ offset fs. refl;
  reads = λ n fs. refl;
  reads_next = λ n fs.
      let ahead = drop fs.position fs.content in
      ap (λ (t : Bytes). take (min n 2) ahead ++ t)
        (sym (drop-drop fs.position (length (take (min n 2) ahead)) fs.content))
      ∙ split_again (min n 2) ahead;
  at_most = λ n fs. omega (arith, length-take (min n 2) (drop fs.position fs.content));
  at_end = λ n fs h e. two_at_end n (drop fs.position fs.content) h e;
}

pub one_file-WritableFile :
    (handle : ℕ) → WritableFile one_file handle (λ fs. fs.content) (λ fs. fs.position)
one_file-WritableFile handle = record {
  seeks = λ offset fs. refl;
  seeks_to = λ offset fs. refl;
  seeks_only = λ offset fs. refl;
  writes = λ b bytes fs.
      took (length (b ∷ bytes)) (omega arith) (omega arith)
        (rw (take_all (length bytes) bytes (omega arith))) refl;
}
