-- ===== src/Error/Files.antt =====
-- hoarder-common/src/error.rs: the first half of the errno values that no other code names.
use hoarder.Base.{pos}
use hoarder.Error.{Errno, errno}

abbrev pub eperm : Errno
eperm = errno (pos 1)

abbrev pub enoent : Errno
enoent = errno (pos 2)

abbrev pub esrch : Errno
esrch = errno (pos 3)

abbrev pub enxio : Errno
enxio = errno (pos 6)

abbrev pub e2big : Errno
e2big = errno (pos 7)

abbrev pub enoexec : Errno
enoexec = errno (pos 8)

abbrev pub echild : Errno
echild = errno (pos 10)

abbrev pub ewouldblock : Errno
ewouldblock = errno (pos 11)

abbrev pub eacces : Errno
eacces = errno (pos 13)

abbrev pub enotblk : Errno
enotblk = errno (pos 15)

abbrev pub ebusy : Errno
ebusy = errno (pos 16)

abbrev pub eexist : Errno
eexist = errno (pos 17)

abbrev pub exdev : Errno
exdev = errno (pos 18)

abbrev pub enodev : Errno
enodev = errno (pos 19)

abbrev pub enotdir : Errno
enotdir = errno (pos 20)

abbrev pub eisdir : Errno
eisdir = errno (pos 21)

abbrev pub enfile : Errno
enfile = errno (pos 23)

abbrev pub emfile : Errno
emfile = errno (pos 24)

abbrev pub enotty : Errno
enotty = errno (pos 25)

abbrev pub etxtbsy : Errno
etxtbsy = errno (pos 26)

abbrev pub efbig : Errno
efbig = errno (pos 27)

abbrev pub enospc : Errno
enospc = errno (pos 28)

abbrev pub espipe : Errno
espipe = errno (pos 29)

abbrev pub erofs : Errno
erofs = errno (pos 30)

abbrev pub emlink : Errno
emlink = errno (pos 31)

abbrev pub epipe : Errno
epipe = errno (pos 32)

abbrev pub edom : Errno
edom = errno (pos 33)

abbrev pub erange : Errno
erange = errno (pos 34)

abbrev pub edeadlk : Errno
edeadlk = errno (pos 35)

abbrev pub edeadlock : Errno
edeadlock = errno (pos 35)

abbrev pub enametoolong : Errno
enametoolong = errno (pos 36)

abbrev pub enolck : Errno
enolck = errno (pos 37)

abbrev pub enosys : Errno
enosys = errno (pos 38)

abbrev pub enotempty : Errno
enotempty = errno (pos 39)

abbrev pub eloop : Errno
eloop = errno (pos 40)

abbrev pub enomsg : Errno
enomsg = errno (pos 42)

abbrev pub eidrm : Errno
eidrm = errno (pos 43)

abbrev pub echrng : Errno
echrng = errno (pos 44)

abbrev pub el2nsync : Errno
el2nsync = errno (pos 45)

abbrev pub el3hlt : Errno
el3hlt = errno (pos 46)

abbrev pub el3rst : Errno
el3rst = errno (pos 47)

abbrev pub elnrng : Errno
elnrng = errno (pos 48)

abbrev pub eunatch : Errno
eunatch = errno (pos 49)

abbrev pub enocsi : Errno
enocsi = errno (pos 50)

abbrev pub el2hlt : Errno
el2hlt = errno (pos 51)

abbrev pub ebade : Errno
ebade = errno (pos 52)

abbrev pub ebadr : Errno
ebadr = errno (pos 53)

abbrev pub exfull : Errno
exfull = errno (pos 54)

abbrev pub enoano : Errno
enoano = errno (pos 55)

abbrev pub ebadrqc : Errno
ebadrqc = errno (pos 56)

abbrev pub ebadslt : Errno
ebadslt = errno (pos 57)

abbrev pub ebfont : Errno
ebfont = errno (pos 59)

abbrev pub enostr : Errno
enostr = errno (pos 60)

abbrev pub enodata : Errno
enodata = errno (pos 61)

abbrev pub etime : Errno
etime = errno (pos 62)

abbrev pub enosr : Errno
enosr = errno (pos 63)

abbrev pub enonet : Errno
enonet = errno (pos 64)
