-- ===== src/Tests/Data.antt =====
-- Instances, platforms and messages that the tests and examples run on.
use icap.Prelude.{
  refl, arith, if◌then◌else◌, ◌==◌, pos, negsuc, neg, ◌*◌, none, some, [], ◌∷◌, replicate,
}
use icap.Wire.{
  encode_msg, encode_frags, encode_u32, BufFrags, BufOffsets, BufDescriptor, SubdeviceFeatures,
  SubdeviceParams, Msg,
}
use icap.Core.{ApplicationCallbacks, DeviceCallbacks, application, device, State, header_for}
use icap.BareMetal.Transport.{Transport, Platform, RemoteMsg, zeroed}
use icap.BareMetal.Keeps.{ticks}
use icap.BareMetal.Await.{IsClient}
use icap.Rpc.Server.{IsServer}

abbrev pub no_features : SubdeviceFeatures
no_features = record {
  type = 0;
  src_buf_max = 0;
  dst_buf_max = 0;
  channels_min = 0;
  channels_max = 0;
  formats = 0;
  rates = 0;
}

abbrev pub stereo : SubdeviceFeatures
stereo = record no_features {
  src_buf_max = 1;
  channels_min = 2;
  channels_max = 2;
  formats = 4;
  rates = 128;
}

abbrev pub params : SubdeviceParams
params = record { subdev_id = 1; channels = 2; format = 2; rate = 48000 }

abbrev pub two_frags : BufFrags
two_frags = record { buf_id = 7; frags = 2 }

abbrev pub offsets : BufOffsets
offsets = record { buf_id = 7; num = 1; frags_offsets = 4096 ∷ replicate 63 0 }

abbrev pub descriptor : BufDescriptor
descriptor = record {
  name = 112 ∷ 99 ∷ 109 ∷ replicate 61 0;
  subdev_id = 0;
  buf_low = 0x20000000;
  buf_high = 0;
  buf_size = 65536;
  type = 0;
  gap_size = 0;
  frag_size = 1024;
  channels = 2;
  format = 2;
  rate = 48000;
  report_frags = 1;
}

-- An application that takes fragments, and whose error handler fails.
abbrev pub player : ApplicationCallbacks
player = record { frag_ready = some (λ f h. pos 0); xrun = none; error = some (λ e h. negsuc 21) }

-- A device with one subdevice; starting subdevice 1 fails.
abbrev pub speaker : DeviceCallbacks
speaker = record {
  get_subdevices = some (λ h. pos 1);
  get_subdevice_features = some (λ id f h. (pos 0, stereo));
  subdevice_init = none;
  subdevice_deinit = none;
  add_src = some (λ b h. pos 3);
  add_dst = some (λ b h. neg 252);
  remove_src = none;
  remove_dst = none;
  start = some (λ id h. if id == 1 then negsuc 15 else pos 0);
  stop = none;
  pause = none;
  resume = none;
  frags = none;
  frag_ready_response = some (λ id h. pos 0);
  xrun_response = none;
  error_response = none;
}

abbrev pub transport : Transport
transport = record {
  rpmsg_instance = 1;
  rpmsg_ept = 2;
  remote_addr = 30;
  msg_fifo = record { head = 0; tail = 0; remote_msg = replicate 10 zeroed };
  last_response = replicate 496 0;
}

abbrev pub playing : State Transport
playing = record {
  icap = record {
    transport = transport;
    name = 0;
    type = 0;
    priv = 0;
    callbacks = some (application player);
    seq_num = 4;
  };
  history = [];
}

abbrev pub speaking : State Transport
speaking = record {
  icap = record playing.icap { type = 1; callbacks = some (device speaker) };
  history = [];
}

-- Nothing arrives, and every reading of the clock is 0.7 seconds later.
abbrev pub quiet : Platform
quiet = record {
  hold = pos 1;
  no_buff = negsuc 0;
  send = λ i e a b h. pos 0;
  us_clock_tick = λ h. 700000 * ticks h;
  arrivals = λ h. [];
}

-- A message of the device about two fragments, in the receive buffer at 0x1000.
abbrev pub ready : RemoteMsg
ready = record {
  buffer = record {
    addr = 0x1000;
    bytes =
        1 ∷ 0 ∷ 0 ∷ 0 ∷ 9 ∷ 0 ∷ 0 ∷ 0 ∷ 59 ∷ 0 ∷ 0 ∷ 0 ∷ 0 ∷ 0 ∷ 0 ∷ 0 ∷ 0 ∷ 0 ∷ 0 ∷ 0 ∷ 0 ∷ 0 ∷ 0
        ∷ 0 ∷ 0 ∷ 0 ∷ 0 ∷ 0 ∷ 0 ∷ 0 ∷ 0 ∷ 0 ∷ 0 ∷ 0 ∷ 0 ∷ 0 ∷ 8 ∷ 0 ∷ 0 ∷ 0 ∷ 7 ∷ 0 ∷ 0 ∷ 0 ∷ 2 ∷ 0
        ∷ 0 ∷ 0 ∷ [];
  };
  size = 48;
  src_addr = 30;
}

abbrev pub ready_msg : Msg
ready_msg = record { header = header_for 9 59 0 8; payload = encode_frags two_frags }

abbrev pub start_request : Msg
start_request = record { header = header_for 5 54 0 4; payload = encode_u32 1 }

-- An application with nine messages waiting.
abbrev pub crowded : State Transport
crowded = record playing {
  icap = record playing.icap {
    transport = record transport {
      msg_fifo = record { head = 9; tail = 0; remote_msg = replicate 10 ready };
    };
  };
}

abbrev pub answering : RemoteMsg → Platform
answering m = record quiet { arrivals = λ h. m ∷ [] }

pub playing-IsClient : IsClient player 30 playing
playing-IsClient = record {
  callbacks = refl;
  type = refl;
  knows = omega arith;
  ring = omega arith;
  idle = refl;
}

pub speaking-IsServer : IsServer speaker 30 speaking
speaking-IsServer = record { callbacks = refl; type = refl; knows = omega arith }

-- A device's refusal to start subdevice 1.
abbrev pub refusal : RemoteMsg
refusal = record {
  buffer = record {
    addr = 0x3000;
    bytes = encode_msg (header_for 5 54 2 4) (encode_u32 4294967280);
  };
  size = 44;
  src_addr = 30;
}
