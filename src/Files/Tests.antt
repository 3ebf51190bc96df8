-- ===== src/Files/Tests.antt =====
-- A read of a file whose blocks cannot be read from the disk.
use rv_mini_os.Prelude.{true, false, none, [], ◌∷◌, refl}
use rv_mini_os.Fs.Bcache.{Cache}
use rv_mini_os.Fs.Inode.{Fs}
use rv_mini_os.Fs.ReadWrite.{kernel_buffer}
use rv_mini_os.Files.{Files, file_op, file_read}
use rv_mini_os.Files.Errors.{ReadOf, file_read-Reads}

abbrev broken_disk : Cache
broken_disk = record {
  cblk = λ b. record {
    blkno = 0;
    refcnt = 0;
    dirty = false;
    valid = false;
    held = false;
    buf = λ i. 7;
  };
  buf_list = 0 ∷ [];
  disk = λ n i. 7;
  fails = λ n. true;
}

abbrev broken_fs : Fs
broken_fs = record {
  sb = record {
    magic = 69;
    nb_blk = 100;
    blk_size = 4096;
    nb_ibm = 1;
    nb_dbm = 1;
    nb_itab = 1;
    nb_dblk = 90;
    ibm_start = 2;
    dbm_start = 3;
    itab_start = 4;
    data_start = 5;
  };
  cache = broken_disk;
  inode = λ i. record {
    ino = 1;
    refcnt = 1;
    valid = true;
    held = false;
    content = record {
      size = 5000;
      kind = 2;
      dev_id = 0;
      nblink = 1;
      dirblkno = λ n. 5;
      indir = 0;
    };
  };
  icache = 0 ∷ [];
}

-- Files 0 to 99 are open for reading at offset 10.
abbrev open_files : Files
open_files = record {
  fs = broken_fs;
  root = 0;
  ftable = λ f. record { refcnt = 1; i = 0; off = 10; mode = 1; w_op = file_op; r_op = file_op };
  dev_r = λ d. 0;
  dev_w = λ d. 0;
}

file_read-Reads_example :
    ReadOf kernel_buffer 3 20 open_files
      (λ i. 0)
      (file_read kernel_buffer (λ c f n w m. none) 3 20 open_files (λ i. 0))
file_read-Reads_example =
    file_read-Reads kernel_buffer (λ c f n w m. none) 3 20 open_files (λ i. 0) refl refl
