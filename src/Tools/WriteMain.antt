-- ===== src/Tools/WriteMain.antt =====
-- tools/write_zone/zbc_write_zone.c: main, from the open of the device to its close.
use Prim.Native.String.{String}
use libzbc.Base.{
  ◌+◌, ◌*◌, ◌%◌, bit_or, Bool, true, false, not, ◌&&◌, ◌||◌, Option, none, some, List, ◌==◌, ltb,
  leb, if◌then◌else◌, u64, ℤ, pos, is_zero, neg_enomem, get_or, take, drop, length,
}
use libzbc.Device.{Device, Zone, zbc_zone_sequential}
use libzbc.Device.Driver.{Drv}
use libzbc.Open.{Backend, Handle, zbc_open, zbc_flush}
use libzbc.Tools.{Tally}
use libzbc.Tools.Args.{Numbers}
use libzbc.Tools.ReadZone.{World, finish_device}
use libzbc.Zones.Listing.{listed_zones}
use libzbc.Zones.{no_zone, zbc_list_zones}
use libzbc.Tools.WriteLine.{WriteAsked, parse_write}
use libzbc.Tools.WriteZone.{Input, write_loop, write_max, write_zones}

-- What the tool calls besides the library and what the tool that reads calls. `open_input` opens
-- the input and finds its size, and says whether that succeeds; `close_input` closes it.
pub record Source (S : Type 0) : Type 0 where
  pub open_input : String → S → Bool × S
  pub close_input : S → S
  pub input : Input S

module _ {S : Type 0} (w : World S) (src : Source S) (drivers : List (Backend String S))
    (junk : ℤ) where
  -- The flush that -s asks for, behind loops that did not leave for the label `out`.
  unfoldable pub flushed : Bool → Drv S → Device → Option ((Bool × Tally) × S) → Option (ℤ × S)
  flushed flush drv dev none = none
  flushed flush drv dev (some ((true, t), s)) = some (t.ret, s)
  flushed flush drv dev (some ((false, t), s)) =
      let (ret, s') = zbc_flush drv dev s in
      if flush then some (if is_zero ret then pos 0 else pos 1, s') else some (t.ret, s)

  abbrev pub input_of : Option String → Option (Input S)
  input_of none = none
  input_of (some name) = some src.input

  abbrev pub open_source : Option String → S → Bool × S
  open_source none s = (true, s)
  open_source (some name) s = src.open_input name s

  abbrev pub close_source : Option String → Option (ℤ × S) → Option (ℤ × S)
  close_source file none = none
  close_source none (some r) = some r
  close_source (some name) (some (ret, s)) = some (ret, src.close_input s)

  -- From the list of the zones on: the code and the state at the label `out`. Nothing stands for a
  -- division by zero.
  unfoldable pub write_from : WriteAsked → Device → Drv S → List Zone → S → Option (ℤ × S)
  unfolding write_zones write_loop write_max flushed
  write_from a dev drv zones s =
      let z = get_or zones a.zidx no_zone in
      let size = u64 (a.bufsize * a.iovcnt) in
      let align =
        if zbc_zone_sequential z
        then dev.zbd_info.zbd_pblock_size
        else dev.zbd_info.zbd_lblock_size in
      let (opened, s') = open_source a.file s in
      let loop =
        write_zones w.page_size drv dev w.aborted (input_of a.file) a.floop a
          (take a.nz (drop a.zidx zones)) (pos 0) 0 0 s' in
      if leb (length zones) a.zidx || ltb (length zones) (a.zidx + a.nz)
      then some (pos 1, s)
      else if align == 0
      then none
      else if not (a.bufsize % align == 0)
      then some (pos 1, s)
      else if a.vio && not (w.calloc a.iovcnt)
      then some (neg_enomem, s)
      else if not (w.memalign size)
      then some (pos 1, s)
      else if not opened
      then some (pos 1, s')
      else close_source a.file (flushed a.flush drv dev loop)

  unfoldable pub write_device : WriteAsked → Backend String S → Device → S → Option (ℤ × S)
  unfolding write_from listed_zones
  write_device a b dev s =
      let ((ret, out), s') = zbc_list_zones b.drv junk dev w.calloc 0 0 s in
      finish_device w drivers junk b dev
        (if is_zero ret then write_from a dev b.drv (listed_zones out) s' else some (pos 1, s'))

  unfoldable pub opened_write : WriteAsked → Option (Handle String S) → S → Option (ℤ × S)
  unfolding write_device
  opened_write a none s = none
  opened_write a (some h) s =
      if not (is_zero h.ret)
      then some (pos 1, s)
      else elim h.pdev [ none ↦ none | some (b, dev) ↦ write_device a b dev s ]

  -- main of the tool, with the arguments behind the name of the program.
  unfoldable pub write_zone_tool : Numbers → List String → S → Option (ℤ × S)
  unfolding parse_write opened_write
  write_zone_tool num args s = elim (parse_write num args) [
    | none ↦ some (pos 1, s)
    | some a ↦
        let (h, s') = zbc_open drivers w.realpath w.calloc a.path (bit_or a.oflags a.flags) s in
        opened_write a h s'
  ]
