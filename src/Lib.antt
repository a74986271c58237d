-- ===== src/Lib.antt =====
-- pureffi: calls of C functions from Go without cgo, with purego's interface over the library goffi.
--
-- RegisterFunc (purego.go) gives a Go function variable an implementation that calls a C function. It
-- checks the function's type, describes the parameters and the result to goffi, and then sets the
-- variable to a generated wrapper (zz_fast_func.go, written by genfastfunc.go), if tryRegisterFastPath
-- finds one, or else to a closure that packs its arguments by reflection. SyscallN (syscall_unix.go)
-- calls a C function with words, CString and GoString (cstring.go) move texts to and from C's memory,
-- and package objc (objc/) builds methods and blocks, which it describes to the Objective-C runtime by
-- type encodings.
--
-- The files and the code they model:
--   Common       names of the libraries, lists and Boolean tests over the native numbers.
--   Go           what the code uses of Go: types and values as package reflect shows them, sizes and
--                alignments of the gc compiler on 64-bit platforms, panics, GOOS and GOARCH.
--   Goffi        the types of package types of goffi.
--   Descriptor   purego.go: goTypeToFfiType, goArgTypeToFfiType.
--   FastPath     zz_fast_func.go and genfastfunc.go. Slots has the wrappers, one Slot for each
--                parameter; Dispatch the generated switches, by the generator's loops; Names the names of
--                the generated functions, Emit the bodies that the generator writes, as statements with an
--                interpreter for them; Signature tryRegisterFastPath; Call what the wrappers do, with
--                fastCallIF; Pool the goroutines that are in fastCallIF at the same time, as a step
--                relation on the contexts of fastCallPool. Shape and Selection say which lists of slots
--                have a wrapper, Decision compares that with the code.
--   Register     purego.go: RegisterFunc up to the value that the variable gets. Markers has its markers
--                and its guess from the symbol's name, Delivery one call of it, Concurrent calls from many
--                goroutines.
--   SlowCall     purego.go: packArg, slowCallContext, and the closure's packing loops and clean-up. Pack
--                has one argument, Steps and Arguments the loops, CleanUp the pooled context;
--                Call goes on to ffi.CallFunction, by an interface that Call/Interface describes.
--                Return has the closure after it: the result buffer, unpackRet and the values that the
--                closure returns. Closure puts them together, with the thread lock and errno.
--   Callback     purego.go: NewCallback.
--   Syscall      syscall_unix.go: SyscallN, initSyscallCIFs, syscallPool.
--   CString      cstring.go: CString, GoString, initMalloc; purego.go: cStringToGoString.
--   InternalStrings  internal/strings/strings.go.
--   NsStrings    cstrings/nsstrings_darwin.go: init and NSStringToString.
--   Loader       dlfcn_linux.go, dlfcn_bsd.go, dlfcn_darwin.go, dlfcn_windows.go. Open has Dlopen on
--                Linux, Once its calls one after the other, Settles what the first one settles for the rest,
--                Handles the handle for all libraries.
--   Errno        syscall_unix.go: initErrno, getErrnoPtr, clrAndGetErrno; Windows has
--                syscall_windows.go.
--   Symbol       sym_unix.go, sym_windows.go: getSymbolName; purego.go: RegisterLibFunc.
--   Objc         objc/objc_runtime_darwin.go: encodeType, encodeFunc; objc/objc_block_darwin.go: encode.
--                Grammar says what a type code is, Methods reads the code's texts by it. Calls has
--                the calls of the runtime as a log, Class NewIMP and RegisterClass over it, Accessor
--                the setters and getters that it makes, Send the functions Send and SendSuper, Init the
--                package's init, Lists the lists that it copies from the runtime.
--   Blocks       objc/objc_block_darwin.go. Layouts has the cache of getLayout, Lifetime the blocks from
--                NewBlock to dispose as a step relation, Make NewBlock.
--   Arm          stub_arm.go.
--   Probe        cmd/universal-probe/main.go, over a system that is given.
--
-- A function that may panic returns an Outcome, with a constructor of Panic for each panic. A pooled
-- context is an argument, with whatever an earlier call left in it, and a result; FastPath/Pool has the
-- contexts of all goroutines, and what the pool does with them. Words are numbers, a
-- float is its bit pattern. The code of goffi is not in the repository: ffi.PrepareCallInterface,
-- ffi.CallFunction, ffi.NewCallback, ffi.GetSymbol, ffi.LoadLibrary and ffi.FreeLibrary are arguments of
-- the definitions that call them, as are the C functions that the code looks up: malloc, dlopen,
-- dlerror, dladdr, the one with the address of errno, and the runtimes of blocks and classes.
-- CallFunction is a function of what the C function can read, the words behind the argument pointers,
-- so a result speaks of what reaches C; in SlowCall/Closure also of the thread that it runs on and of
-- the errno cells. Blocks and Objc/Class take NewCallback as an argument, to be given by Callback and
-- goffi, and Objc/Init takes RegisterFunc at each variable's type, so that they do not depend on what
-- reflect makes of a function.
--
-- Bounds are the code's: 15 integer words, 8 floats and 23 argument pointers in a fastCallContext, 32
-- arguments in a slowCallContext and for SyscallN. The one loop without a bound in the code, the search
-- for a NUL byte, runs on fuel, and one more than the length of the text is enough. The digits of a
-- number in a wrapper's name and the logarithm of an alignment run on fuel that the number itself gives.
--
-- Not modelled: the methods of package objc that are one call of a function variable; the writing of
-- the generator's text, of which the names, the parameters and the statements are modelled; mutexes,
-- since each operation on a shared map is one step, and the garbage collector, but for the contexts that
-- it takes out of fastCallPool. A refusal by ffi.NewCallback is outside of the model of the slow path:
-- it is a function to addresses there.
pub mod Common
pub mod Go
pub mod Goffi
pub mod Descriptor
pub mod FastPath
pub mod Register
pub mod SlowCall
pub mod Callback
pub mod Syscall
pub mod CString
pub mod InternalStrings
pub mod NsStrings
pub mod Loader
pub mod Errno
pub mod Symbol
pub mod Objc
pub mod Blocks
pub mod Arm
pub mod Probe
